-- ===== src/Strings/Lines.antt =====
-- What lines and words are read from a text that is put together from them.
use asabru_commons.Base.{
  ◌≡◌, refl, true, false, some, none, [], ◌∷◌, ◌++◌, Bytes, Lacks, All, arith, ℕ,
}
use asabru_commons.Strings.{cut, lines, is_space, word_of, extract, getline, Stream}

pub cut-append : (d : ℕ) (a b : Bytes) → Lacks d a → cut d (a ++ d ∷ b) ≡ (a, some b)
unfolding cut
cut-append d [] b h = ground arith
cut-append d (c ∷ a) b h = rw (cut-append d a b h.1) (ground arith)

pub cut_of-Lacks : (d : ℕ) (a : Bytes) → Lacks d a → cut d a ≡ (a, none)
unfolding cut
cut_of-Lacks d [] h = refl
cut_of-Lacks d (c ∷ a) h = rw (cut_of-Lacks d a h.1) (ground arith)

pub lines-append : (a b : Bytes) → Lacks b'\n' a → lines (a ++ b'\n' ∷ b) ≡ a ∷ lines b
unfolding lines
lines-append [] b h = refl
lines-append (c ∷ a) b h = rw (lines-append a b h.1) (ground arith)

pub lines_of-Lacks : (c : ℕ) (a : Bytes) → Lacks b'\n' (c ∷ a) → lines (c ∷ a) ≡ (c ∷ a) ∷ []
unfolding lines
lines_of-Lacks c [] h = ground arith
lines_of-Lacks c (d ∷ a) h = rw (lines_of-Lacks d a h.1) (ground arith)

-- A text with no white space in it.
abbrev pub IsWord : Bytes → Type 0
IsWord = All (λ c. is_space c ≡ false)

word_of-append : (w b : Bytes) → IsWord w → word_of (w ++ b' ' ∷ b) ≡ (w, b' ' ∷ b)
unfolding word_of is_space
word_of-append [] b h = refl
word_of-append (c ∷ w) b h = rw (word_of-append w b h.1) (ground arith)

word_of-IsWord : (w : Bytes) → IsWord w → word_of w ≡ (w, [])
unfolding word_of
word_of-IsWord [] h = refl
word_of-IsWord (c ∷ w) h = rw (word_of-IsWord w h.1, h.0)

abbrev pub good_stream : Bytes → Stream
good_stream s = record { rest = s; eof = false; fail = false }

-- Reading a word that a space follows.
pub extract-append :
    (c : ℕ) (w b old : Bytes)
    → IsWord (c ∷ w)
    → extract (good_stream ((c ∷ w) ++ b' ' ∷ b)) old ≡ (c ∷ w, good_stream (b' ' ∷ b))
unfolding extract
extract-append c w b old h = rw (h.0) (rw (word_of-append (c ∷ w) b h))

-- Reading the last word.
pub extract_last :
    (c : ℕ) (w old : Bytes)
    → IsWord (c ∷ w)
    → extract (good_stream (c ∷ w)) old ≡ (c ∷ w, record { rest = []; eof = true; fail = false })
unfolding extract
extract_last c w old h = rw (h.0) (rw (word_of-IsWord (c ∷ w) h))

pub extract_space :
    (s old : Bytes) → extract (good_stream (b' ' ∷ s)) old ≡ extract (good_stream s) old
unfolding extract
extract_space s old = refl

-- Reading a line that its delimiter ends, and the last line.
pub getline_at :
    (d : ℕ) (a b old : Bytes)
    → Lacks d a
    → getline d (good_stream (a ++ d ∷ b)) old ≡ (a, good_stream b)
unfolding getline
getline_at d a b old h = rw (cut-append d a b h)

pub getline_last :
    (d c : ℕ) (a old : Bytes)
    → Lacks d (c ∷ a)
    → getline d (good_stream (c ∷ a)) old ≡ (c ∷ a, record { rest = []; eof = true; fail = false })
unfolding getline
getline_last d c a old h = rw (cut_of-Lacks d (c ∷ a) h)

-- A text with no delimiter is read whole, and a second read leaves its variable as it was.
pub getline_twice :
    (d e : ℕ) (a old other : Bytes)
    → Lacks d a
    → ((getline d (good_stream a) old).0 ≡ a)
      × ((getline e (getline d (good_stream a) old).1 other).0 ≡ other)
unfolding getline
getline_twice d e a old other h = ground (arith, cut_of-Lacks d a h)
