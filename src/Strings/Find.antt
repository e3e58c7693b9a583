-- ===== src/Strings/Find.antt =====
-- What a search finds: the first place where the pattern stands.
use asabru_commons.Base.{
  ℕ, ◌+◌, ◌-◌, lt→ltb, append-nil, ◌≡◌, ◌≢◌, refl, true, false, some, [], ◌∷◌, ◌++◌, Bytes, Lacks,
  length, arith, ==_self, append_assoc, ltb, take-length-append, drop-length-append, length-append,
  ok, if◌then◌else◌,
}
use asabru_commons.Strings.{is_prefix, find, find_from, substr, substr_from}

pub is_prefix-append : (pat s : Bytes) → is_prefix pat (pat ++ s) ≡ true
unfolding is_prefix
is_prefix-append [] s = refl
is_prefix-append (p ∷ pat) s = ground (arith, is_prefix-append pat s, ==_self p)

-- The pattern does not stand in `s` before the end of `a`, where `s` follows `a`.
abbrev pub IsFree : Bytes → Bytes → Bytes → Type 0
IsFree pat [] s = Unit
IsFree pat (c ∷ a) s = (is_prefix pat ((c ∷ a) ++ s) ≡ false) × IsFree pat a s

pub find_free :
    (pat a s : Bytes)
    → pat ≢ []
    → IsFree pat a (pat ++ s)
    → find pat (a ++ (pat ++ s)) ≡ some (length a)
unfolding find
find_free [] a s n h = absurd (n refl)
find_free (p ∷ pat) [] s n h = rw (is_prefix-append (p ∷ pat) s)
find_free (p ∷ pat) (c ∷ a) s n h = rw (h.0) (rw (find_free (p ∷ pat) a s n h.1))

pub IsFree-of-Lacks : (p : ℕ) (pat a s : Bytes) → Lacks p a → IsFree (p ∷ pat) a s
unfolding is_prefix
IsFree-of-Lacks p pat [] s h = tt
IsFree-of-Lacks p pat (c ∷ a) s h = (ground arith, IsFree-of-Lacks p pat a s h.1)

pub IsFree-append :
    (pat a b s : Bytes) → IsFree pat a (b ++ s) → IsFree pat b s → IsFree pat (a ++ b) s
IsFree-append pat [] b s h k = k
IsFree-append pat (c ∷ a) b s h k = (rw (append_assoc) h.0, IsFree-append pat a b s h.1 k)

-- Substrings at places that are known by the text in front of them.
pub substr_at : (a b s : Bytes) → substr (a ++ (b ++ s)) (length a) (length b) ≡ ok b
unfolding substr
substr_at a b s =
    rw (drop-length-append a (b ++ s), take-length-append b s)
      (ground (arith, length-append a (b ++ s)))

pub substr_from_at : (a b : Bytes) → substr_from (a ++ b) (length a) ≡ ok b
unfolding substr_from
substr_from_at a b = rw (drop-length-append a b) (ground (arith, length-append a b))

pub find_from_at :
    (pat a b s : Bytes)
    → pat ≢ []
    → IsFree pat b (pat ++ s)
    → find_from pat (a ++ (b ++ (pat ++ s))) (length a) ≡ some (length a + length b)
unfolding find_from
find_from_at pat a b s n h =
    rw (drop-length-append a (b ++ (pat ++ s)), find_free pat b s n h)
      (ground (arith, length-append a (b ++ (pat ++ s))))

-- The text behind a known part, also when nothing is left.
pub substr_rest :
    (a b : Bytes)
    → (if ltb (length a) (length (a ++ b))
        then substr (a ++ b) (length a) (length (a ++ b) - length a)
        else ok [])
      ≡ ok b
substr_rest a [] = rw (append-nil a) (ground arith)
substr_rest a (c ∷ b) =
    rw (length-append a (c ∷ b), size, shorter)
      (rw (append-nil (c ∷ b)) at (substr_at a (c ∷ b) []))
  where
    size : length a + length (c ∷ b) - length a ≡ length (c ∷ b)
    size = omega arith

    shorter : ltb (length a) (length a + length (c ∷ b)) ≡ true
    shorter = lt→ltb _ _ (omega arith)
