-- ===== src/Http/Trim.antt =====
-- What `trim` does to the parts of a header line that `to_string` printed.
use asabru_commons.Base.{ℕ, ◌≡◌, refl, ◌⊎◌, inl, inr, [], ◌∷◌, ◌++◌, Bytes, Lacks, arith}
use asabru_commons.Strings.{strip_left, strip_right}
use asabru_commons.Strings.Strip.{
  strip_left_of-Lacks, strip_left_self, strip_right_of-Lacks, strip_right-snoc_ne,
  strip_right-snoc_self, strip_right-cons,
}
use asabru_commons.Http.Request.{trim}

-- No line end in the text, and no space at an end of it.
pub record IsTrimmed (s : Bytes) : Type 0 where
  pub no_cr : Lacks b'\r' s
  pub no_lf : Lacks b'\n' s
  pub left : strip_left b' ' s ≡ s
  pub right : strip_right b' ' s ≡ s

-- A header whose key and value are trimmed, with no colon in the key.
pub record IsField (h : Bytes × Bytes) : Type 0 where
  pub no_colon : Lacks b':' h.0
  pub key : IsTrimmed h.0
  pub value : IsTrimmed h.1

pub Lacks-append : (b : ℕ) (s t : Bytes) → Lacks b s → Lacks b t → Lacks b (s ++ t)
Lacks-append b [] t h k = k
Lacks-append b (c ∷ s) t h k = (h.0, Lacks-append b s t h.1 k)

strip_right_space :
    (s : Bytes) → strip_right b' ' s ≡ s → (s ≡ []) ⊎ (strip_right b' ' (b' ' ∷ s) ≡ b' ' ∷ s)
strip_right_space [] h = inl refl
strip_right_space (c ∷ s) h = inr (strip_right-cons b' ' b' ' c s h)

pub trim-IsTrimmed : (s : Bytes) → IsTrimmed s → trim s ≡ s
unfolding trim
trim-IsTrimmed s t = rw (
  t.right,
  strip_right_of-Lacks b'\n' s t.no_lf,
  strip_right_of-Lacks b'\r' s t.no_cr,
  t.left,
  strip_left_of-Lacks b'\n' s t.no_lf,
  strip_left_of-Lacks b'\n' s t.no_lf,
)

-- The end of `trim`, on a text that is behind a space.
trim_left :
    (s : Bytes) → IsTrimmed s → strip_left b'\n' (strip_left b'\n' (strip_left b' ' (b' ' ∷ s))) ≡ s
trim_left s t = rw (
  strip_left_self b' ' s,
  t.left,
  strip_left_of-Lacks b'\n' s t.no_lf,
  strip_left_of-Lacks b'\n' s t.no_lf,
)

pub trim_space : (s : Bytes) → IsTrimmed s → trim (b' ' ∷ s) ≡ s
unfolding trim
trim_space s t = elim (strip_right_space s t.right) [
  | inl e ↦ rw e (unfold strip_right strip_left in refl)
  | inr e ↦
      rw
        (
          e,
          strip_right_of-Lacks b'\n' (b' ' ∷ s) (omega arith, t.no_lf),
          strip_right_of-Lacks b'\r' (b' ' ∷ s) (omega arith, t.no_cr),
        )
        (trim_left s t)
]

pub trim_space_cr : (s : Bytes) → IsTrimmed s → trim (b' ' ∷ (s ++ b'\r' ∷ [])) ≡ s
unfolding trim
trim_space_cr s t =
    rw
      (
        strip_right-snoc_ne b' ' b'\r' (b' ' ∷ s) (omega arith),
        strip_right-snoc_ne b'\n' b'\r' (b' ' ∷ s) (omega arith),
        strip_right-snoc_self b'\r' (b' ' ∷ s),
        strip_right_of-Lacks b'\r' (b' ' ∷ s) (omega arith, t.no_cr),
      )
      (trim_left s t)
