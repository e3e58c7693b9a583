-- ===== src/Http/Refused.antt =====
-- When `string_to_request` refuses a text, and with which exception.
use asabru_commons.Base.{
  ℕ, suc, length-drop, ◌+◌, ◌-◌, ◌≤◌, ◌≡◌, refl, ◌⊎◌, inl, inr, Bool, true, false, ◌||◌, Option,
  none, some, Option-cases, [], ◌∷◌, Bytes, codes, length, take, drop, ltb, Bool-cases,
  if◌then◌else◌, Failure, invalid_argument, logic_error, Outcome, ok, err, Outcome-cases, ◌>>=◌,
  require, arith,
}
use asabru_commons.Strings.{is_prefix, find, find_from, substr, is_good, lines}
use asabru_commons.Http.Method.{string_to_method}
use asabru_commons.Http.Version.{string_to_version, is_1_1}
use asabru_commons.Http.Message.{set_content}
use asabru_commons.Http.Request.{
  HttpRequest, string_to_request, parse_request, split_body, body_at, start_request,
  read_start_line, read_headers,
}

abbrev IsRefusal : Failure → Type 0
IsRefusal e = (e ≡ invalid_argument) ⊎ (e ≡ logic_error)

-- If the call fails, then by one of the two exceptions.
abbrev Refuses {ℓ} : {A : Type ℓ} → Outcome A → Type 0
Refuses (ok a) = Unit
Refuses (err e) = IsRefusal e

>>=-Refuses {ℓ κ} :
    {A : Type ℓ} {B : Type κ} (m : Outcome A) (f : A → Outcome B)
    → Refuses m
    → ((a : A) → Refuses (f a))
    → Refuses (m >>= f)
>>=-Refuses (ok a) f h k = k a
>>=-Refuses (err e) f h k = h

require-Refuses : (b : Bool) (e : Failure) → IsRefusal e → Refuses (require b e)
require-Refuses true e h = tt
require-Refuses false e h = h

if-Refuses {ℓ} :
    {A : Type ℓ} (b : Bool) (x y : Outcome A) → Refuses x → Refuses y → Refuses (if b then x else y)
if-Refuses true x y h k = h
if-Refuses false x y h k = k

string_to_method-Refuses : (s : Bytes) → Refuses (string_to_method s)
unfolding string_to_method
string_to_method-Refuses s = ground arith

string_to_version-Refuses : (s : Bytes) → Refuses (string_to_version s)
unfolding string_to_version
string_to_version-Refuses s = ground arith

start_request-Refuses : (s : Bytes) → Refuses (start_request s)
unfolding start_request
start_request-Refuses s =
    let (method, path, version, iss) = read_start_line s in
    >>=-Refuses _ _ (require-Refuses (is_good iss || iss.eof) invalid_argument (inl refl)) (λ u.
      >>=-Refuses _ _ (string_to_method-Refuses method) (λ m.
        >>=-Refuses _ _ (string_to_version-Refuses version)
          (λ v. >>=-Refuses _ _ (require-Refuses (is_1_1 v) logic_error (inr refl)) (λ u. tt))))

is_prefix-length : (pat s : Bytes) → is_prefix pat s ≡ true → length pat ≤ length s
unfolding is_prefix
is_prefix-length [] s h = omega arith
is_prefix-length (p ∷ pat) [] h = absurd (cc)
is_prefix-length (p ∷ pat) (c ∷ s) h = ground (arith, is_prefix-length pat s)

find-length : (pat s : Bytes) (i : ℕ) → find pat s ≡ some i → i + length pat ≤ length s
unfolding find
find-length pat [] i h = ground (arith, is_prefix-length pat [])
find-length pat (c ∷ s) i h = elim (Bool-cases (is_prefix pat (c ∷ s))) [
  | inl here ↦ let k = is_prefix-length pat (c ∷ s) here in ground (arith, rw here at h)
  | inr later ↦ elim (Option-cases (find pat s)) [
    | inl none_there ↦ let k : none ≡ some i = rw (later, none_there) at h in absurd (cc)
    | inr (j, e) ↦
        let k : some (suc j) ≡ some i = rw (later, e) at h in
        let ih = find-length pat s j e in ground arith
  ]
]

find_from-length :
    (pat s : Bytes) (pos i : ℕ)
    → find_from pat s pos ≡ some i
    → (pos ≤ i) × (i + length pat ≤ length s)
unfolding find_from
find_from-length pat s pos i h = elim (Bool-cases (ltb (length s) pos)) [
  | inl outside ↦ let k : none ≡ some i = rw outside at h in absurd (cc)
  | inr inside ↦ elim (Option-cases (find pat (drop pos s))) [
    | inl none_there ↦ let k : none ≡ some i = rw (inside, none_there) at h in absurd (cc)
    | inr (j, e) ↦
        let k : some (pos + j) ≡ some i = rw (inside, e) at h in
        let fits = find-length pat (drop pos s) j e in ground (arith, length-drop pos s)
  ]
]

substr-ok : (s : Bytes) (pos n : ℕ) → pos ≤ length s → substr s pos n ≡ ok (take n (drop pos s))
unfolding substr
substr-ok s pos n h = ground arith

body_at-ok : (s : Bytes) (pos : ℕ) → (b : Bytes) × (body_at s pos ≡ ok b)
unfolding body_at
body_at-ok s pos = elim (Bool-cases (ltb pos (length s))) [
  | inl inside ↦ (
    take (length s - pos) (drop pos s),
    rw inside (substr-ok s pos (length s - pos) (ground arith)),
  )
  | inr outside ↦ ([], rw outside refl)
]

split_body-ok :
    (s : Bytes) (lpos : ℕ) (o : Option ℕ)
    → find_from (codes "\r\n\r\n") s lpos ≡ o
    → (p : Bytes × Bytes) × (split_body s lpos o ≡ ok p)
unfolding split_body
split_body-ok s lpos none h = (([], []), refl)
split_body-ok s lpos (some rpos) h =
    let (low, high) = find_from-length (codes "\r\n\r\n") s lpos rpos h in
    let (body, e) = body_at-ok s (rpos + 4) in
    (
      (take (rpos - lpos) (drop lpos s), body),
      rw (substr-ok s lpos (rpos - lpos) (omega arith), e) refl,
    )

-- The text has no line end, or its start line is refused.
abbrev pub IsBadStart : Bytes → Failure → Type 0
IsBadStart s e =
    ((find (codes "\r\n") s ≡ none) × (e ≡ invalid_argument))
    ⊎ ((rpos : ℕ) × (find (codes "\r\n") s ≡ some rpos) × (start_request (take rpos s) ≡ err e))

parse_request-some :
    (s : Bytes) (rpos : ℕ)
    → find (codes "\r\n") s ≡ some rpos
    → (next : HttpRequest → HttpRequest) × (parse_request s (some rpos)
        ≡ (start_request (take rpos s) >>= λ request. ok (next request)))
unfolding parse_request
parse_request-some s rpos h =
    let fits = find-length (codes "\r\n") s rpos h in
    let lpos = rpos + 2 in
    let (p, e) = split_body-ok s lpos (find_from (codes "\r\n\r\n") s lpos) refl in
    (
      λ request. record request {
        message =
            set_content
              (read_headers (record { message = request.message; key = []; value = [] })
                (lines p.0)).message
              p.1;
      },
      rw (substr-ok s 0 rpos (omega arith), e) refl,
    )

parse_request-none : (s : Bytes) → parse_request s none ≡ err invalid_argument
unfolding parse_request
parse_request-none s = refl

-- `string_to_request` refuses a text only because it has no line end or for its start line, by
-- `invalid_argument` or `logic_error`: headers and body never make it fail, and no position that it
-- takes a part of the text from is behind the end.
pub string_to_request-err :
    (s : Bytes) {e : Failure}
    → string_to_request s ≡ err e
    → ((e ≡ invalid_argument) ⊎ (e ≡ logic_error)) × IsBadStart s e
unfolding string_to_request
string_to_request-err s {e} h = elim (Option-cases (find (codes "\r\n") s)) [
  | inl none_there ↦
      let refused = rw (none_there, parse_request-none) at h in
      let same : e ≡ invalid_argument = cc in (inl same, inl (none_there, same))
  | inr (rpos, there) ↦
      let (next, parsed) = parse_request-some s rpos there in
      let run = rw (there, parsed) at h in
      elim (Outcome-cases (start_request (take rpos s))) [
        | inl (f, bad) ↦
            let same : f ≡ e = let k = rw bad at run in cc in
            (
              rw same at (rw bad at (start_request-Refuses (take rpos s))),
              inr (rpos, there, rw (← same) bad),
            )
        | inr (r, good) ↦ let k = rw good at run in absurd (cc)
      ]
]
