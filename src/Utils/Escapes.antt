-- ===== src/Utils/Escapes.antt =====
-- Escaped strings read back.
use asabru_commons.Base.{ℕ, ◌≡◌, refl, [], ◌∷◌, ◌++◌, Bytes, ◌==◌, if◌then◌else◌, arith}
use asabru_commons.Utils.{escape, get_string_with_escapes}

-- What stands behind a backslash.
abbrev pub meant : ℕ → ℕ
meant c = if c == b'n' then b'\n' else if c == b'r' then b'\r' else if c == b't' then b'\t' else c

-- The reader of escaped strings.
unfoldable mutual
  pub unescape : Bytes → Bytes
  unescape [] = []
  unescape (c ∷ s) = let rest = unescape s in if c == b'\\' then behind s else c ∷ rest

  pub behind : Bytes → Bytes
  behind [] = []
  behind (c ∷ s) = meant c ∷ unescape s

unescape-escape : (c : ℕ) (s : Bytes) → unescape (escape c ++ s) ≡ c ∷ unescape s
unfolding unescape behind escape
unescape-escape c s = ground arith

-- A string is read back from its escaped form.
pub unescape-get_string_with_escapes : (s : Bytes) → unescape (get_string_with_escapes s) ≡ s
unfolding get_string_with_escapes
unescape-get_string_with_escapes [] = unfold unescape in refl
unescape-get_string_with_escapes (c ∷ s) =
    rw (unescape-escape c (get_string_with_escapes s), unescape-get_string_with_escapes s)
