-- ===== src/Strings/Copies.antt =====
-- What is read of a text that C copied.
use asabru_commons.Base.{
  ℕ, suc, ◌≡◌, refl, sym, ◌∙◌, subst, Option, none, some, [], ◌∷◌, ◌++◌, ◌==◌, Bytes, Lacks, length,
  drop, ltb, ok, require, >>=-eq-ok, arith, Bool-cases, inl, inr,
}
use asabru_commons.Strings.{cut}
use asabru_commons.Strings.Lines.{cut-append}
use asabru_commons.Strings.Memory.{c_str, c_part, text_of, c_text, strcpy}

cut-Lacks : (d : ℕ) (s : Bytes) → Lacks d (cut d s).0
unfolding cut
cut-Lacks d [] = tt
cut-Lacks d (c ∷ s) = elim (Bool-cases (c == d)) [
  | inl same ↦ rw same tt
  | inr other ↦ rw other ((λ e. ground arith), cut-Lacks d s)
]

text_of_cut : (p : Bytes × Option Bytes) {s : Bytes} → text_of p ≡ ok s → p.0 ≡ s
unfolding text_of
text_of_cut (s, none) e = absurd (cc)
text_of_cut (s, some rest) e = cc

-- A text that was read holds no null byte, and is read back where `strcpy` put it.
pub strcpy-c_text :
    (memory dst s : Bytes) {copy : Bytes}
    → c_text memory ≡ ok s
    → strcpy dst s ≡ ok copy
    → c_text copy ≡ ok s
unfolding c_text strcpy
strcpy-c_text memory dst s {copy} read fits =
    let (u, room, built) = >>=-eq-ok (require (ltb (length s) (length dst)) _) _ fits in
    let free : Lacks 0 s = subst (Lacks 0) (text_of_cut (cut 0 memory) read) (cut-Lacks 0 memory) in
    let same : s ++ 0 ∷ drop (suc (length s)) dst ≡ copy = cc in
    rw (← same, cut-append 0 s (drop (suc (length s)) dst) free) (unfold text_of in refl)

cut-snoc : (d : ℕ) (s : Bytes) → (cut d (s ++ d ∷ [])).0 ≡ (cut d s).0
unfolding cut
cut-snoc d [] = ground arith
cut-snoc d (c ∷ s) = ground (arith, cut-snoc d s)

-- What is read of `s.c_str()`.
pub c_text-c_part : (s : Bytes) {text : Bytes} → c_text (c_str s) ≡ ok text → text ≡ c_part s
unfolding c_text c_part
c_text-c_part s read = sym (text_of_cut (cut 0 (s ++ 0 ∷ [])) read) ∙ cut-snoc 0 s
