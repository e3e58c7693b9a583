-- ===== src/Payload.antt =====
-- src/file_transfer/Payload.h and src/file_transfer/Payload.cpp: the packets of the file transfer.
pub mod Packets
mod Examples
use asabru_commons.Base.{
  ℕ, ◌+◌, ◌-◌, ◌%◌, ◌^◌, Bool, Option, none, some, Bytes, codes, replicate, leb, if◌then◌else◌,
  Outcome, ok, undefined_behaviour, require, ◌>>=◌, ◌>>◌, ◌&&◌,
}
use asabru_commons.Base.Int.{ℤ, pos, negsuc, ltb_ℤ, to_size, to_int}
use asabru_commons.Strings.Memory.{c_str, memcpy, c_text, strcpy}

pub data PacketType : Type 0 where
  chista_null chista_hand_shake chista_ack chista_meta_data chista_file_content : PacketType
  chista_meta_eof chista_meta_fatal_error : PacketType

unfoldable pub packet_type_value : PacketType → ℤ
packet_type_value chista_null = negsuc 0
packet_type_value chista_hand_shake = pos 1
packet_type_value chista_ack = pos 2
packet_type_value chista_meta_data = pos 3
packet_type_value chista_file_content = pos 4
packet_type_value chista_meta_eof = pos 5
packet_type_value chista_meta_fatal_error = pos 6

-- Arrays of characters are the bytes of their memory.
pub record HandShake : Type 0 where
  pub packet_type : ℤ
  pub hello_str : Bytes
  pub padding : Bytes

pub record Ack : Type 0 where
  pub packet_type : ℤ
  pub hello_str : Bytes
  pub padding : Bytes

pub record FileMeta : Type 0 where
  pub packet_type : ℤ
  pub file_name : Bytes
  pub size : ℤ
  pub padding : Bytes

-- `buffer` is the memory from the start of that field to the end of what `malloc` gave.
pub record FileChunk : Type 0 where
  pub packet_type : ℤ
  pub packet_seq_num : ℤ
  pub buffer_size : ℤ
  pub buffer : Bytes

pub record FileEof : Type 0 where
  pub packet_type : ℤ
  pub eof_str : Bytes

pub record FileFatalError : Type 0 where
  pub packet_type : ℤ
  pub err_msg : Bytes

-- `memset(..., 0, n)`.
abbrev pub zeros : ℕ → Bytes
zeros n = replicate n 0

-- The argument is the memory that the pointer points to.
unfoldable pub make_file_meta : Bytes → ℤ → Outcome FileMeta
unfolding packet_type_value
make_file_meta file_name size = do
  name ← c_text file_name
  copy ← strcpy (zeros 255) name
  ok (record {
    packet_type = packet_type_value chista_meta_data;
    file_name = copy;
    size = size;
    padding = zeros 1;
  })

unfoldable pub make_hand_shake : Outcome HandShake
unfolding packet_type_value strcpy
make_hand_shake = do
  copy ← strcpy (zeros 6) (codes "hello")
  ok (record {
    packet_type = packet_type_value chista_hand_shake;
    hello_str = copy;
    padding = zeros 2;
  })

unfoldable pub make_ack : Outcome Ack
unfolding packet_type_value strcpy
make_ack = do
  copy ← strcpy (zeros 6) (codes "olleh")
  ok (record { packet_type = packet_type_value chista_ack; hello_str = copy; padding = zeros 2 })

unfoldable pub make_eof : Outcome FileEof
unfolding packet_type_value strcpy
make_eof = do
  copy ← strcpy (zeros 4) (codes "EOF")
  ok (record { packet_type = packet_type_value chista_meta_eof; eof_str = copy })

-- `sizeof(T_FILE_CHUNK)` and the place of its field `buffer`, with an `int` of 4 bytes.
abbrev pub size_of_chunk : ℕ
size_of_chunk = 16

abbrev pub offset_of_buffer : ℕ
offset_of_buffer = 12

-- `sizeof(T_FILE_CHUNK) + length + 4` is a `size_t`, and is converted to `int`.
unfoldable pub actual_buffer_size : ℤ → ℤ
actual_buffer_size length = to_int ((size_of_chunk + to_size length + 4) % 2 ^ 64)

-- `allocates n` tells whether `malloc(n)` gives memory. Writing through a null pointer, or behind
-- the memory, is undefined behaviour.
unfoldable pub make_buffer_pack : (ℕ → Bool) → Bytes → ℤ → ℤ → Outcome FileChunk
unfolding packet_type_value
make_buffer_pack allocates buffer length seq_num =
    let size = to_size (actual_buffer_size length) in
    do
      require (allocates size && leb offset_of_buffer size) undefined_behaviour
      copy ← memcpy (zeros (size - offset_of_buffer)) buffer (to_size length)
      ok (record {
        packet_type = packet_type_value chista_file_content;
        packet_seq_num = seq_num;
        buffer_size = length;
        buffer = copy;
      })

abbrev pub too_long : Bytes
too_long = codes "Error Message Too Long..."

unfoldable pub make_error_pack : Bytes → ℤ → Outcome FileFatalError
unfolding packet_type_value
make_error_pack buffer len = do
  copy ←
      if ltb_ℤ len (pos 1020)
      then (c_text buffer >>= strcpy (zeros 1020))
      else strcpy (zeros 1020) too_long
  ok (record { packet_type = packet_type_value chista_meta_fatal_error; err_msg = copy })

-- The argument is the size of the file, if it can be opened; `tellg` gives -1 if it cannot.
unfoldable pub compute_file_size : Option ℕ → ℤ
compute_file_size none = negsuc 0
compute_file_size (some size) = to_int size
