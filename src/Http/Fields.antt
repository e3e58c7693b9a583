-- ===== src/Http/Fields.antt =====
-- The header lines of `string_to_request`, printed ones and others.
use asabru_commons.Base.{
  ◌≡◌, refl, ◌∙◌, List, [], ◌∷◌, ◌++◌, append_assoc, append-nil, Bytes, codes, All, Lacks, false,
  arith,
}
use asabru_commons.Strings.{is_prefix, open_stream, lines}
use asabru_commons.Strings.Find.{IsFree, IsFree-of-Lacks, IsFree-append}
use asabru_commons.Strings.Lines.{
  getline_at, getline_twice, getline_last, lines-append, lines_of-Lacks,
}
use asabru_commons.Strings.Order.{IsSorted, IsAbove, IsAbove-next, map_set-IsAbove}
use asabru_commons.Http.Message.{Headers, set_header, print_headers}
use asabru_commons.Http.Request.{trim, Fields, read_header, read_headers}
use asabru_commons.Http.Trim.{IsField, Lacks-append, trim-IsTrimmed, trim_space, trim_space_cr}

-- A header line without its line end.
abbrev pub field_text : Bytes × Bytes → Bytes
field_text h = h.0 ++ b':' ∷ b' ' ∷ h.1

-- The variables of the loop after a header.
abbrev after : Fields → Bytes × Bytes → Fields
after f h = record { message = set_header f.message h.0 h.1; key = h.0; value = h.1 }

read_header_field :
    (f : Fields) (h : Bytes × Bytes) → IsField h → read_header f (field_text h) ≡ after f h
unfolding read_header open_stream
read_header_field f h i = rw (
  getline_at b':' h.0 (b' ' ∷ h.1) f.key i.no_colon,
  getline_last b'\n' b' ' h.1 f.value (omega arith, i.value.no_lf),
  trim-IsTrimmed h.0 i.key,
  trim_space h.1 i.value,
)

read_header_cr :
    (f : Fields) (h : Bytes × Bytes)
    → IsField h
    → read_header f (field_text h ++ b'\r' ∷ []) ≡ after f h
unfolding read_header open_stream
read_header_cr f h i = rw (
  append_assoc h.0 (b':' ∷ b' ' ∷ h.1) (b'\r' ∷ []),
  getline_at b':' h.0 (b' ' ∷ (h.1 ++ b'\r' ∷ [])) f.key i.no_colon,
  getline_last b'\n' b' ' (h.1 ++ b'\r' ∷ []) f.value
      (omega arith, Lacks-append b'\n' h.1 (b'\r' ∷ []) i.value.no_lf (omega arith, tt)),
  trim-IsTrimmed h.0 i.key,
  trim_space_cr h.1 i.value,
)

-- The header lines with a line end between them and none behind the last.
abbrev pub joined : Bytes × Bytes → Headers → Bytes
joined h [] = field_text h
joined h (i ∷ hs) = field_text h ++ b'\r' ∷ b'\n' ∷ joined i hs

pub print-joined :
    (h : Bytes × Bytes) (hs : Headers) → print_headers (h ∷ hs) ≡ joined h hs ++ codes "\r\n"
unfolding print_headers
print-joined h [] = simp (append_assoc, append-nil)
print-joined h (i ∷ hs) = rw (print-joined i hs) (simp append_assoc)

field_text-no_cr : (h : Bytes × Bytes) → IsField h → Lacks b'\r' (field_text h)
field_text-no_cr h i =
    Lacks-append b'\r' h.0 (b':' ∷ b' ' ∷ h.1) i.key.no_cr
      (omega arith, (omega arith, i.value.no_cr))

field_text-no_lf : (h : Bytes × Bytes) → IsField h → Lacks b'\n' (field_text h)
field_text-no_lf h i =
    Lacks-append b'\n' h.0 (b':' ∷ b' ' ∷ h.1) i.key.no_lf
      (omega arith, (omega arith, i.value.no_lf))

-- No header line begins with a carriage return.
is_prefix_line :
    (h : Bytes × Bytes) (s : Bytes)
    → IsField h
    → is_prefix (codes "\r\n\r\n") (b'\r' ∷ b'\n' ∷ (field_text h ++ s)) ≡ false
unfolding is_prefix
is_prefix_line h s i = first h.0 i.key.no_cr
  where
    first :
        (k : Bytes)
        → Lacks b'\r' k
        → is_prefix (codes "\r\n\r\n") (b'\r' ∷ b'\n' ∷ ((k ++ b':' ∷ b' ' ∷ h.1) ++ s)) ≡ false
    first [] l = refl
    first (c ∷ k) l = ground arith

is_prefix-joined :
    (h : Bytes × Bytes) (hs : Headers) (s : Bytes)
    → IsField h
    → is_prefix (codes "\r\n\r\n") (b'\r' ∷ b'\n' ∷ (joined h hs ++ s)) ≡ false
is_prefix-joined h [] s i = is_prefix_line h s i
is_prefix-joined h (j ∷ hs) s i =
    rw (append_assoc (field_text h) (b'\r' ∷ b'\n' ∷ joined j hs) s) (is_prefix_line h _ i)

-- So the end of the headers is not found before it is there.
pub joined-IsFree :
    (h : Bytes × Bytes) (hs : Headers) (s : Bytes)
    → All IsField (h ∷ hs)
    → IsFree (codes "\r\n\r\n") (joined h hs) s
joined-IsFree h [] s i = IsFree-of-Lacks b'\r' _ (field_text h) s (field_text-no_cr h i.0)
joined-IsFree h (j ∷ hs) s i =
    IsFree-append (codes "\r\n\r\n") (field_text h) (b'\r' ∷ b'\n' ∷ joined j hs) s
      (IsFree-of-Lacks b'\r' _ (field_text h) _ (field_text-no_cr h i.0))
      (is_prefix-joined j hs s i.1.0, (unfold is_prefix in refl, joined-IsFree j hs s i.1))

lines_field : (h : Bytes × Bytes) → IsField h → lines (field_text h) ≡ field_text h ∷ []
lines_field h i = first h.0 (field_text-no_lf h i)
  where
    first :
        (k : Bytes)
        → Lacks b'\n' (k ++ b':' ∷ b' ' ∷ h.1)
        → lines (k ++ b':' ∷ b' ' ∷ h.1) ≡ (k ++ b':' ∷ b' ' ∷ h.1) ∷ []
    first [] l = lines_of-Lacks b':' (b' ' ∷ h.1) l
    first (c ∷ k) l = lines_of-Lacks c (k ++ b':' ∷ b' ' ∷ h.1) l

pub lines_next :
    (h : Bytes × Bytes) (s : Bytes)
    → IsField h
    → lines (field_text h ++ b'\r' ∷ b'\n' ∷ s) ≡ (field_text h ++ b'\r' ∷ []) ∷ lines s
lines_next h s i = rw (← append_assoc (field_text h) (b'\r' ∷ []) (b'\n' ∷ s)) (
    lines-append (field_text h ++ b'\r' ∷ []) s
      (Lacks-append b'\n' (field_text h) (b'\r' ∷ []) (field_text-no_lf h i) (omega arith, tt)))

-- A line with no colon enters its text as a key, with the value of the header before it.
pub read_header-no_colon :
    (f : Fields) (line : Bytes)
    → Lacks b':' line
    → read_header f line ≡ record {
      message = set_header f.message (trim line) (trim f.value);
      key = trim line;
      value = trim f.value;
    }
unfolding read_header open_stream
read_header-no_colon f line h =
    let (key, value) = getline_twice b':' b'\n' line f.key f.value h in rw (key, value)

read_headers-cons :
    (f : Fields) (l : Bytes) (ls : List Bytes)
    → read_headers f (l ∷ ls) ≡ read_headers (read_header f l) ls
unfolding read_headers
read_headers-cons f l ls = refl

read_headers-nil : (f : Fields) → read_headers f [] ≡ f
unfolding read_headers
read_headers-nil f = refl

-- The loop over the printed lines enters the headers in their order.
pub read_headers-lines :
    (h : Bytes × Bytes) (hs : Headers) (f : Fields)
    → All IsField (h ∷ hs)
    → IsAbove h.0 f.message.headers
    → IsSorted (h ∷ hs)
    → (read_headers f (lines (joined h hs))).message
      ≡ record f.message { headers = f.message.headers ++ h ∷ hs }
unfolding set_header
read_headers-lines h [] f i a s = rw (
  lines_field h i.0,
  read_headers-cons,
  read_header_field f h i.0,
  read_headers-nil,
  map_set-IsAbove h.0 h.1 f.message.headers a,
)
read_headers-lines h (j ∷ hs) f i a s =
    rw (lines_next h (joined j hs) i.0, read_headers-cons, read_header_cr f h i.0)
      (read_headers-lines j hs (after f h) i.1
          (rw (map_set-IsAbove h.0 h.1 f.message.headers a)
            (IsAbove-next h.0 j.0 h.1 f.message.headers a s.0.0))
          s.1
        ∙ rw (map_set-IsAbove h.0 h.1 f.message.headers a) (simp append_assoc))
