-- ===== src/Authentication/CachedFileList/Marked.antt =====
-- The lines of the file behind a mark and behind `compactFile`.
use asabru_commons.Base.{
  ℕ, ◌+◌, ◌≡◌, refl, ◌∙◌, ap, List, [], ◌∷◌, ◌++◌, append_assoc, length-append, true, false, ltb,
  lt→ltb, Bytes, length, set, str_eq, str_eq_iff, if◌then◌else◌, arith, Lacks, All, Bool-cases, inl,
  inr,
}
use asabru_commons.Authentication.CachedFileList.{
  vertical_tab, is_live, position, mark, is_kept, compacted, put_mark,
}
use asabru_commons.Authentication.CachedFileList.Synced.{unlines, holds, IsUnique, lines-unlines}

-- The file with its first line `str` marked.
abbrev pub marked : Bytes → List Bytes → List Bytes
marked str [] = []
marked str (l ∷ ls) = if str_eq l str then set l 0 vertical_tab ∷ ls else l ∷ marked str ls

set-append : (a b : Bytes) (c v : ℕ) → set (a ++ c ∷ b) (length a) v ≡ a ++ v ∷ b
set-append [] b c v = refl
set-append (x ∷ a) b c v = ap (◌∷◌ x) (set-append a b c v)

before_end : (a s t : Bytes) → ltb (length a + length s) (length (a ++ (s ++ b'\n' ∷ t))) ≡ true
before_end a s t =
    lt→ltb _ _ (omega (arith, length-append a (s ++ b'\n' ∷ t), length-append s (b'\n' ∷ t)))

line_end : (a l s : Bytes) → (a ++ (l ++ b'\n' ∷ [])) ++ s ≡ a ++ (l ++ b'\n' ∷ s)
line_end a l s = simp append_assoc

line_end-length : (a l : Bytes) → length (a ++ (l ++ b'\n' ∷ [])) ≡ length a + (length l + 1)
line_end-length a l = omega (arith, length-append a (l ++ b'\n' ∷ []), length-append l (b'\n' ∷ []))

put_mark-unlines :
    (a : Bytes) (c : ℕ) (str : Bytes) (ls : List Bytes)
    → put_mark (a ++ unlines ls) (c ∷ str) (position (c ∷ str) ls (length a))
      ≡ a ++ unlines (marked (c ∷ str) ls)
unfolding put_mark position
put_mark-unlines a c str [] = refl
put_mark-unlines a c str (l ∷ ls) = elim (Bool-cases (str_eq l (c ∷ str))) [
  | inl same ↦
      rw (same, (str_eq_iff l (c ∷ str)).0 same)
        (rw (before_end a (c ∷ str) (unlines ls))
          (set-append a (str ++ b'\n' ∷ unlines ls) c vertical_tab))
  | inr other ↦
      let ih = put_mark-unlines (a ++ (l ++ b'\n' ∷ [])) c str ls in
      rw other (
        rw
          (
            line_end a l (unlines ls),
            line_end a l (unlines (marked (c ∷ str) ls)),
            line_end-length a l,
          )
          at ih)
]

pub holds-is_live : (ls : List Bytes) (str : Bytes) → holds ls str ≡ true → is_live str ≡ true
holds-is_live [] str h = cc
holds-is_live (l ∷ ls) str h = ground (arith, str_eq_iff str l, holds-is_live ls str)

pub holds-marked :
    (c : ℕ) (str : Bytes) (ls : List Bytes) (key : Bytes)
    → is_live (c ∷ str) ≡ true
    → IsUnique ls
    → holds (marked (c ∷ str) ls) key ≡ (if str_eq key (c ∷ str) then false else holds ls key)
holds-marked c str [] key live u = ground arith
holds-marked c str (l ∷ ls) key live u = elim (Bool-cases (str_eq l (c ∷ str))) [
  | inl same ↦
      let e = (str_eq_iff l (c ∷ str)).0 same in
      let once : holds ls (c ∷ str) ≡ false = rw e at (u.0 (rw e live)) in
      elim (Bool-cases (str_eq key (c ∷ str))) [
        | inl k ↦ rw (same, e, k, (str_eq_iff key (c ∷ str)).0 k) once
        | inr other ↦
            rw (same, e, other)
              (ground (arith, str_eq_iff key (c ∷ str), str_eq_iff key (vertical_tab ∷ str)))
      ]
  | inr other ↦
      rw (other, holds-marked c str ls key live u.1)
        (ground (arith, str_eq_iff l (c ∷ str), str_eq_iff key l))
]

pub IsUnique-marked :
    (c : ℕ) (str : Bytes) (ls : List Bytes)
    → is_live (c ∷ str) ≡ true
    → IsUnique ls
    → IsUnique (marked (c ∷ str) ls)
IsUnique-marked c str [] live u = tt
IsUnique-marked c str (l ∷ ls) live u = elim (Bool-cases (str_eq l (c ∷ str))) [
  | inl same ↦ rw (same, (str_eq_iff l (c ∷ str)).0 same) (λ h. absurd (ground arith), u.1)
  | inr other ↦ rw other (
    λ h. rw (holds-marked c str ls l live u.1, u.0 h) (ground arith),
    IsUnique-marked c str ls live u.1,
  )
]

pub Lacks-marked :
    (c : ℕ) (str : Bytes) (ls : List Bytes)
    → All (Lacks b'\n') ls
    → All (Lacks b'\n') (marked (c ∷ str) ls)
Lacks-marked c str [] w = tt
Lacks-marked c str (l ∷ ls) w = elim (Bool-cases (str_eq l (c ∷ str))) [
  | inl same ↦
      let e = (str_eq_iff l (c ∷ str)).0 same in
      let x = rw e at w.0 in rw (same, e) ((ground arith, x.1), w.1)
  | inr other ↦ rw other (w.0, Lacks-marked c str ls w.1)
]

pub mark-unlines :
    (c : ℕ) (str : Bytes) (ls : List Bytes)
    → All (Lacks b'\n') ls
    → mark (unlines ls) (c ∷ str) ≡ unlines (marked (c ∷ str) ls)
unfolding mark
mark-unlines c str ls w = rw (lines-unlines ls w) (put_mark-unlines [] c str ls)

abbrev pub kept : List Bytes → List Bytes
kept [] = []
kept (l ∷ ls) = if is_kept l then l ∷ kept ls else kept ls

pub compacted-kept : (ls : List Bytes) → compacted ls ≡ unlines (kept ls)
unfolding compacted
compacted-kept [] = refl
compacted-kept (l ∷ ls) = rw (compacted-kept ls) (ground arith)

live-kept : (l : Bytes) → is_live l ≡ true → is_kept l ≡ true
live-kept [] h = cc
live-kept (c ∷ l) h = h

pub holds-kept : (ls : List Bytes) (str : Bytes) → holds (kept ls) str ≡ holds ls str
holds-kept [] str = refl
holds-kept (l ∷ ls) str = ground (arith, holds-kept ls str, live-kept l)

pub IsUnique-kept : (ls : List Bytes) → IsUnique ls → IsUnique (kept ls)
IsUnique-kept [] u = tt
IsUnique-kept (l ∷ ls) u = elim (Bool-cases (is_kept l)) [
  | inl k ↦ rw k (λ h. holds-kept ls l ∙ u.0 h, IsUnique-kept ls u.1)
  | inr k ↦ rw k (IsUnique-kept ls u.1)
]

pub Lacks-kept : (ls : List Bytes) → All (Lacks b'\n') ls → All (Lacks b'\n') (kept ls)
Lacks-kept [] w = tt
Lacks-kept (l ∷ ls) w = elim (Bool-cases (is_kept l)) [
  | inl k ↦ rw k (w.0, Lacks-kept ls w.1)
  | inr k ↦ rw k (Lacks-kept ls w.1)
]
