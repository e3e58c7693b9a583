-- ===== src/Utils/Split.antt =====
-- The tokens of `split`, put together again.
use asabru_commons.Base.{
  ℕ, zero, suc, ◌+◌, ◌<◌, ◌≡◌, refl, ap, subst, List, [], ◌∷◌, ◌++◌, true, Bool-cases, Option-cases,
  inl, inr, Option, none, some, Bytes, length, take, drop, length-append, arith,
}
use asabru_commons.Strings.{find, is_prefix}
use asabru_commons.Utils.{split_loop, split, with_token}

abbrev pub join : Bytes → List Bytes → Bytes
join delimiter [] = []
join delimiter (t ∷ []) = t
join delimiter (t ∷ u ∷ ts) = t ++ (delimiter ++ join delimiter (u ∷ ts))

is_prefix-append : (p s : Bytes) → is_prefix p s ≡ true → s ≡ p ++ drop (length p) s
unfolding is_prefix
is_prefix-append [] s h = refl
is_prefix-append (c ∷ p) [] h = cc
is_prefix-append (c ∷ p) (d ∷ s) h = ground (arith, is_prefix-append p s)

find_at : (p s : Bytes) (i : ℕ) → find p s ≡ some i → s ≡ take i s ++ (p ++ drop (i + length p) s)
unfolding find
find_at [] [] i h =
    let e : 0 ≡ i = cc in subst (λ k. ◌≡◌ {A = Bytes} [] (take k [] ++ drop (k + 0) [])) e refl
find_at (d ∷ p) [] i h = absurd (cc)
find_at p (c ∷ s) i h = elim (Bool-cases (is_prefix p (c ∷ s))) [
  | inl here ↦
      let e : 0 ≡ i = ground arith in
      let n : length p ≡ 0 + length p = omega arith in
      subst (λ k. c ∷ s ≡ take k (c ∷ s) ++ (p ++ drop (k + length p) (c ∷ s))) e
        (subst (λ k. c ∷ s ≡ p ++ drop k (c ∷ s)) n (is_prefix-append p (c ∷ s) here))
  | inr later ↦ elim (Option-cases (find p s)) [
    | inl missing ↦ absurd (ground arith)
    | inr (j, f) ↦
        let e : suc j ≡ i = ground arith in
        let n : suc (j + length p) ≡ suc j + length p = omega arith in
        subst (λ k. c ∷ s ≡ take k (c ∷ s) ++ (p ++ drop (k + length p) (c ∷ s))) e
          (subst (λ k. c ∷ s ≡ c ∷ (take j s ++ (p ++ drop k (c ∷ s)))) n
            (ap (◌∷◌ c) (find_at p s j f)))
  ]
]

find-empty : (s : Bytes) → find [] s ≡ some 0
unfolding find is_prefix
find-empty [] = refl
find-empty (c ∷ s) = refl

-- The tokens, if there is fuel: there are some, and they join to the text.
abbrev pub IsSplit : Bytes → Bytes → Option (List Bytes) → Type 0
IsSplit d s o = (t : Bytes) × (ts : List Bytes) × (o ≡ some (t ∷ ts)) × (join d (t ∷ ts) ≡ s)

with_token-IsSplit :
    (d s rest token : Bytes) (o : Option (List Bytes))
    → s ≡ token ++ (d ++ rest)
    → IsSplit d rest o
    → IsSplit d s (with_token token o)
with_token-IsSplit d s rest token o e (t, ts, f, j) = (token, t ∷ ts, rw f refl, rw (j, ← e) refl)

shorter :
    (d : Bytes) (c : ℕ) (s token rest : Bytes) (n : ℕ)
    → s ≡ token ++ ((c ∷ d) ++ rest)
    → length s < suc n
    → length rest < n
shorter d c s token rest n e h =
    let k : length s ≡ length (token ++ ((c ∷ d) ++ rest)) = ap length e in
    omega (arith, length-append token ((c ∷ d) ++ rest), length-append d rest)

split_loop-IsSplit :
    (n c : ℕ) (d s : Bytes) → length s < n → IsSplit (c ∷ d) s (split_loop n (c ∷ d) s)
unfolding split_loop
split_loop-IsSplit zero c d s h = absurd (omega arith)
split_loop-IsSplit (suc n) c d s h = elim (Option-cases (find (c ∷ d) s)) [
  | inl missing ↦ rw missing (s, [], refl, refl)
  | inr (i, f) ↦
      let e = find_at (c ∷ d) s i f in
      rw f (
        with_token-IsSplit (c ∷ d) s (drop (i + length (c ∷ d)) s) (take i s) _ e (
          split_loop-IsSplit n c d (drop (i + length (c ∷ d)) s)
            (shorter d c s (take i s) (drop (i + length (c ∷ d)) s) n e h)))
]

-- For a delimiter that is not empty `split` ends, and its tokens, with the delimiter between them, are
-- the text.
pub split-IsSplit : (s : Bytes) (c : ℕ) (d : Bytes) → IsSplit (c ∷ d) s (split s (c ∷ d))
unfolding split
split-IsSplit s c d = split_loop-IsSplit (suc (length s)) c d s (omega arith)

-- For the empty delimiter no fuel is enough.
pub split_loop-empty : (n : ℕ) (s : Bytes) → split_loop n [] s ≡ none
unfolding split_loop
split_loop-empty zero s = refl
split_loop-empty (suc n) s = rw (find-empty s, split_loop-empty n s) refl
