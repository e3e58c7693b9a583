-- ===== src/Payload/Examples.antt =====
-- Packets made.
use asabru_commons.Base.{◌+◌, ◌≡◌, refl, true, none, Bytes, codes, length, take, ok, arith, ◌>>=◌}
use asabru_commons.Base.Int.{pos, negsuc}
use asabru_commons.Strings.{cut}
use asabru_commons.Strings.Memory.{c_str, c_text}
use asabru_commons.Payload.{
  FileChunk, FileFatalError, packet_type_value, chista_meta_fatal_error, make_file_meta,
  make_hand_shake, make_ack, make_eof, make_buffer_pack, make_error_pack, compute_file_size,
}
use asabru_commons.Payload.Packets.{
  IsFileMeta, message_of, make_file_meta-IsFileMeta, make_error_pack-c_text, make_buffer_pack-take,
}

hello : (make_hand_shake >>= λ p. c_text p.hello_str) ≡ ok (codes "hello")
unfolding make_hand_shake c_text cut
hello = refl

olleh : (make_ack >>= λ p. c_text p.hello_str) ≡ ok (codes "olleh")
unfolding make_ack c_text cut
olleh = refl

end_of_file : (make_eof >>= λ p. c_text p.eof_str) ≡ ok (codes "EOF")
unfolding make_eof c_text cut
end_of_file = refl

missing_file : compute_file_size none ≡ negsuc 0
unfolding compute_file_size
missing_file = refl

make_file_meta-IsFileMeta_example :
    IsFileMeta (codes "a.txt") (pos 12) (make_file_meta (c_str (codes "a.txt")) (pos 12))
make_file_meta-IsFileMeta_example = make_file_meta-IsFileMeta (codes "a.txt") (pos 12) (omega arith)

make_error_pack-c_text_example :
    (p : FileFatalError) × (make_error_pack (c_str (codes "no disk")) (pos 7) ≡ ok p)
    × (c_text p.err_msg ≡ ok (message_of (codes "no disk")))
    × (p.packet_type ≡ packet_type_value chista_meta_fatal_error)
make_error_pack-c_text_example = make_error_pack-c_text (codes "no disk") (omega arith)

abbrev five_bytes : Bytes
five_bytes = codes "bytes"

make_buffer_pack-take_example :
    (c : FileChunk) × (make_buffer_pack (λ n. true) five_bytes (pos 3) (pos 1) ≡ ok c)
    × (take 3 c.buffer ≡ take 3 five_bytes)
    × (length c.buffer ≡ 3 + 8)
    × (c.buffer_size ≡ pos 3)
    × (c.packet_seq_num ≡ pos 1)
make_buffer_pack-take_example =
    make_buffer_pack-take (λ n. true) five_bytes 3 (pos 1) (omega arith) (omega arith) refl
