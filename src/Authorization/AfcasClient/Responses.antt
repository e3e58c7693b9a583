-- ===== src/Authorization/AfcasClient/Responses.antt =====
-- src/afcas/AfcasClient.cpp: what AFCAS answers, the checks of it, and the JSON text in it. The JSON
-- library is `Json`.
use asabru_commons.Base.Int.{ℤ, pos}
use asabru_commons.Base.{
  ℕ, ◌+◌, ◌-◌, ◌%◌, ◌^◌, ◌==◌, List, [], ◌∷◌, Bool, true, false, ◌&&◌, Option, none, some, Bytes,
  codes, if◌then◌else◌, Outcome, ok, err, require, runtime_error, invalid_argument, json_error,
}
use asabru_commons.Strings.{find, substr}

-- `dump` of an object of texts, `parse`, `none` where it throws, and `["data"].get<bool>()`, `none`
-- where that throws.
pub record Json : Type 1 where
  pub Value : Type 0
  pub dump : List (Bytes × Bytes) → Bytes
  pub parse : Bytes → Option Value
  pub data_flag : Value → Option Bool

-- The `HttpResponse` of this file.
pub record HttpResponse : Type 0 where
  pub status_code : ℤ
  pub response : Bytes
  pub response_content : Bytes

-- `s.rfind(c)`.
unfoldable pub rfind : ℕ → Bytes → Option ℕ
rfind c [] = none
rfind c (d ∷ s) = elim (rfind c s) [
  | some i ↦ some (i + 1)
  | none ↦ if d == c then some 0 else none
]

-- The check of both indices, and the text between them, its length on `size_t`.
unfoldable pub json_part : Bytes → Option ℕ → Option ℕ → Outcome Bytes
json_part s (some i) (some j) = substr s i ((j + 1 + 2 ^ 64 - i) % 2 ^ 64)
json_part s _ _ = err invalid_argument

abbrev pub parsed {ℓ} : {A : Type ℓ} → Option A → Outcome A
parsed none = err invalid_argument
parsed (some v) = ok v

abbrev pub flag_of : Option Bool → Outcome Bool
flag_of none = err json_error
flag_of (some b) = ok b

-- `status_code != 200` throws.
unfoldable pub check_ok : HttpResponse → Outcome (Unit {0})
check_ok r = require (is_200 r.status_code) runtime_error
  where
    is_200 : ℤ → Bool
    is_200 (pos n) = n == 200
    is_200 _ = false

-- Status 500 with "already exists" in the content.
unfoldable pub exists_already : HttpResponse → Bool
exists_already r =
    is_500 r.status_code && is_found (find (codes "already exists") r.response_content)
  where
    is_500 : ℤ → Bool
    is_500 (pos n) = n == 500
    is_500 _ = false

    is_found : Option ℕ → Bool
    is_found none = false
    is_found (some i) = true
