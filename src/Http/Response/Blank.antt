-- ===== src/Http/Response/Blank.antt =====
-- When `string_to_response` fails: `substr` at the result of `find_first_not_of`.
use asabru_commons.Base.{
  ℕ, ◌<◌, ◌^◌, ◌≡◌, refl, inl, inr, Bool, true, false, ◌&&◌, ◌||◌, ◌==◌, Bool-cases, List, [], ◌∷◌,
  ◌++◌, Option, none, some, Bytes, codes, Lacks, str_eq, if◌then◌else◌, Outcome, ok, err,
  out_of_range, ◌>>=◌, arith,
}
use asabru_commons.Strings.{open_stream, is_empty, is_good, lines, cut}
use asabru_commons.Strings.Lines.{IsWord, extract-append, getline_at}
use asabru_commons.Strings.Decimal.{decimal, is_digit}
use asabru_commons.Http.Message.{Message, new_message, set_header}
use asabru_commons.Http.Response.{
  string_to_response, from_first_not_blank, header_of, read_response_header, read_response_headers,
  rest_lines,
}
use asabru_commons.Http.Response.Numbers.{extract_int-decimal, extract_int_space}

-- Nothing but spaces and tabs.
abbrev pub is_blank : Bytes → Bool
is_blank [] = true
is_blank (c ∷ s) = (c == b' ' || c == b'\t') && is_blank s

abbrev pub is_blank_part : Option Bytes → Bool
is_blank_part none = false
is_blank_part (some s) = is_blank s

-- A line with a colon and nothing in front of the first one, or nothing behind it.
abbrev pub is_blank_header : Bytes × Option Bytes → Bool
is_blank_header (line, none) = false
is_blank_header (left, some right) = is_blank left || is_blank right

-- One of the lines in front of the end of the headers is such a line.
abbrev pub has_blank_header : List Bytes → Bool
has_blank_header [] = false
has_blank_header (line ∷ ls) =
    if is_empty line || str_eq line (codes "\r")
    then false
    else is_blank_header (cut b':' line) || has_blank_header ls

blank_part :
    (s : Bytes)
    → from_first_not_blank s ≡ (if is_blank s then err out_of_range else from_first_not_blank s)
unfolding from_first_not_blank
blank_part [] = refl
blank_part (c ∷ s) = ground (arith, blank_part s)

filled_part : (s : Bytes) → is_blank s ≡ false → (t : Bytes) × (from_first_not_blank s ≡ ok t)
unfolding from_first_not_blank
filled_part [] h = absurd (cc)
filled_part (c ∷ s) h = elim (Bool-cases (c == b' ' || c == b'\t')) [
  | inl white ↦ let (t, e) = filled_part s (ground arith) in (t, rw white e)
  | inr other ↦ (c ∷ s, rw other refl)
]

header_of-blank :
    (m : Message) (parts : Bytes × Option Bytes)
    → is_blank_header parts ≡ true
    → header_of m parts ≡ err out_of_range
unfolding header_of
header_of-blank m (line, none) h = absurd (cc)
header_of-blank m (left, some right) h = elim (Bool-cases (is_blank left)) [
  | inl blank ↦ rw (blank_part left, blank) refl
  | inr filled ↦
      let (t, e) = filled_part left filled in
      let blank : is_blank right ≡ true = rw filled at h in rw (e, blank_part right, blank) refl
]

header_of-filled :
    (m : Message) (parts : Bytes × Option Bytes)
    → is_blank_header parts ≡ false
    → (m' : Message) × (header_of m parts ≡ ok m')
unfolding header_of
header_of-filled m (line, none) h = (m, refl)
header_of-filled m (left, some right) h =
    let (key, e) = filled_part left (ground arith) in
    let (value, f) = filled_part right (ground arith) in (set_header m key value, rw (e, f) refl)

-- The outcome of a call that fails by `out_of_range` in one case and returns in the other.
abbrev pub FailsIf {ℓ} : {A : Type ℓ} → Bool → Outcome A → Type ℓ
FailsIf true m = m ≡ err out_of_range
FailsIf {A} false m = (a : A) × (m ≡ ok a)

read_response_headers-FailsIf :
    (m : Message) (ls : List Bytes) → FailsIf (has_blank_header ls) (read_response_headers m ls)
unfolding read_response_headers read_response_header
read_response_headers-FailsIf m [] = ((m, []), refl)
read_response_headers-FailsIf m (line ∷ ls) =
    elim (Bool-cases (is_empty line || str_eq line (codes "\r"))) [
      | inl ended ↦ rw ended ((m, ls), refl)
      | inr more ↦ elim (Bool-cases (is_blank_header (cut b':' line))) [
        | inl blank ↦ rw (more, blank) (rw (header_of-blank m (cut b':' line) blank) refl)
        | inr filled ↦
            let (m', e) = header_of-filled m (cut b':' line) filled in
            rw (more, filled) (rw e (read_response_headers-FailsIf m' ls))
      ]
    ]

behind-FailsIf {ℓ κ} :
    {A : Type ℓ} {B : Type κ} (b : Bool) (m : Outcome A) (f : A → B)
    → FailsIf b m
    → FailsIf b (m >>= λ a. ok (f a))
behind-FailsIf true m f h = rw h refl
behind-FailsIf false m f (a, e) = (f a, rw e refl)

-- Of a text with a status line of a word, a number that fits an `int` and a reason, `string_to_response`
-- makes a response, unless one of the lines in front of the end of the headers has a colon and
-- nothing but spaces and tabs in front of its first colon or behind it; then it throws `out_of_range`.
pub string_to_response-FailsIf :
    (c : ℕ) (version : Bytes) (n : ℕ) (reason rest : Bytes)
    → IsWord (c ∷ version)
    → n < 2 ^ 31
    → Lacks b'\n' reason
    → FailsIf (has_blank_header (lines rest)) (
        string_to_response ((c ∷ version) ++ b' ' ∷ (decimal n ++ b' ' ∷ (reason ++ b'\n' ∷ rest))))
unfolding string_to_response open_stream rest_lines is_good is_empty
string_to_response-FailsIf c version n reason rest word lt whole =
    rw
      (
        extract-append c version (decimal n ++ b' ' ∷ (reason ++ b'\n' ∷ rest)) [] word,
        extract_int_space,
        extract_int-decimal n (b' ' ∷ (reason ++ b'\n' ∷ rest)) lt (unfold is_digit in refl),
        getline_at b'\n' (b' ' ∷ reason) rest [] (omega arith, whole),
      )
      (behind-FailsIf (has_blank_header (lines rest)) _ _
        (read_response_headers-FailsIf new_message (lines rest)))
