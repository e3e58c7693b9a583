-- ===== src/Strings/Memory.antt =====
-- The memory of C: arrays of bytes, their texts up to a null byte, and the copies `memcpy` and
-- `strcpy`.
use asabru_commons.Base.{
  ℕ, suc, Option, none, some, [], ◌∷◌, ◌++◌, ◌&&◌, Bytes, length, take, drop, leb, ltb, Outcome, ok,
  err, undefined_behaviour, require, ◌>>◌,
}
use asabru_commons.Strings.{cut}

-- The bytes that may be read at `&s[0]`: those of the string and the null byte behind them.
abbrev pub c_str : Bytes → Bytes
c_str s = s ++ 0 ∷ []

-- What a C function reads of `s.c_str()`: the bytes in front of the first null byte.
unfoldable pub c_part : Bytes → Bytes
c_part s = (cut 0 s).0

-- `memcpy(dst, src, n)`: neither array may be shorter than `n`.
unfoldable pub memcpy : Bytes → Bytes → ℕ → Outcome Bytes
memcpy dst src n =
    require (leb n (length src) && leb n (length dst)) undefined_behaviour
    >> ok (take n src ++ drop n dst)

-- The text that starts an array, if a null byte ends it.
unfoldable pub text_of : Bytes × Option Bytes → Outcome Bytes
text_of (s, none) = err undefined_behaviour
text_of (s, some rest) = ok s

unfoldable pub c_text : Bytes → Outcome Bytes
unfolding text_of
c_text memory = text_of (cut 0 memory)

-- `strcpy(dst, s)` of a text: the text and its null byte have to fit.
unfoldable pub strcpy : Bytes → Bytes → Outcome Bytes
strcpy dst s =
    require (ltb (length s) (length dst)) undefined_behaviour
    >> ok (s ++ 0 ∷ drop (suc (length s)) dst)
