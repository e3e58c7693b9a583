-- ===== src/Strings/Strip.antt =====
-- Stripping a byte from the ends of a text.
use asabru_commons.Base.{
  ◌≡◌, ◌≢◌, refl, ap, [], ◌∷◌, ◌++◌, Bytes, Lacks, arith, ℕ, length, ◌≤◌, suc,
}
use asabru_commons.Strings.{strip_left, strip_right}

pub strip_left_of-Lacks : (c : ℕ) (s : Bytes) → Lacks c s → strip_left c s ≡ s
unfolding strip_left
strip_left_of-Lacks c [] h = refl
strip_left_of-Lacks c (d ∷ s) h = ground arith

pub strip_left_self : (c : ℕ) (s : Bytes) → strip_left c (c ∷ s) ≡ strip_left c s
unfolding strip_left
strip_left_self c s = ground arith

pub strip_right_of-Lacks : (c : ℕ) (s : Bytes) → Lacks c s → strip_right c s ≡ s
unfolding strip_right
strip_right_of-Lacks c [] h = refl
strip_right_of-Lacks c (d ∷ s) h = rw (strip_right_of-Lacks c s h.1) (ground arith)

-- Another byte at the end protects the text.
pub strip_right-snoc_ne : (c d : ℕ) (s : Bytes) → d ≢ c → strip_right c (s ++ d ∷ []) ≡ s ++ d ∷ []
unfolding strip_right
strip_right-snoc_ne c d [] h = ground arith
strip_right-snoc_ne c d (e ∷ []) h = rw (strip_right-snoc_ne c d [] h) (ground arith)
strip_right-snoc_ne c d (e ∷ f ∷ s) h = rw (strip_right-snoc_ne c d (f ∷ s) h) (ground arith)

pub strip_right-snoc_self : (c : ℕ) (s : Bytes) → strip_right c (s ++ c ∷ []) ≡ strip_right c s
unfolding strip_right
strip_right-snoc_self c [] = ground arith
strip_right-snoc_self c (d ∷ s) = rw (strip_right-snoc_self c s)

-- A text that is not empty and keeps its end, behind any byte.
pub strip_right-cons :
    (c d e : ℕ) (s : Bytes) → strip_right c (e ∷ s) ≡ e ∷ s → strip_right c (d ∷ e ∷ s) ≡ d ∷ e ∷ s
unfolding strip_right
strip_right-cons c d e s h = rw h (ground arith)

length-strip_left : (c : ℕ) (s : Bytes) → length (strip_left c s) ≤ length s
unfolding strip_left
length-strip_left c [] = omega arith
length-strip_left c (d ∷ s) = ground (arith, length-strip_left c s)

-- A text that stripping leaves as it is does not begin with the byte.
pub strip_left_head : (c d : ℕ) (s : Bytes) → strip_left c (d ∷ s) ≡ d ∷ s → d ≢ c
unfolding strip_left
strip_left_head c d s h e =
    let size : length (strip_left c s) ≡ suc (length s) = ground (arith, ap length h) in
    omega (arith, length-strip_left c s)
