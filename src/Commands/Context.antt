-- ===== src/Commands/Context.antt =====
-- src/ComputationContext.h and .cpp: the bag of parameters of a command.
use asabru_commons.Base.Int.{ℤ}
use asabru_commons.Base.{
  ◌≡◌, List, [], Bool, false, Bytes, Option, none, some, str_eq, if◌then◌else◌, Outcome, ok, err,
  bad_any_cast, arith, str_eq_iff,
}
use asabru_commons.Strings.{map_set, map_find}
use asabru_commons.Strings.Order.{map_find-set}
use asabru_commons.Http.Method.{HttpMethod}

-- `std::any` over the types that the code puts into a context.
pub data Any : Type 0 where
  empty : Any
  text : Bytes → Any
  number : ℤ → Any
  flag : Bool → Any
  method : HttpMethod → Any
  texts : List (Bytes × Bytes) → Any

pub record ComputationContext : Type 0 where
  pub symbols : List (Bytes × Any)

abbrev pub new_context : ComputationContext
new_context = record { symbols = [] }

unfoldable pub put : ComputationContext → Bytes → Any → ComputationContext
put c k value = record c { symbols = map_set k value c.symbols }

-- `it->second`, or a default-constructed `std::any`.
found_or_empty : Option Any → Any
found_or_empty none = empty
found_or_empty (some v) = v

unfoldable pub get : ComputationContext → Bytes → Any
unfolding found_or_empty
get c k = found_or_empty (map_find k c.symbols)

-- `std::any_cast<std::string>`, `<bool>` and `<int>`.
unfoldable pub cast_text : Any → Outcome Bytes
cast_text (text s) = ok s
cast_text _ = err bad_any_cast

unfoldable pub cast_flag : Any → Outcome Bool
cast_flag (flag b) = ok b
cast_flag _ = err bad_any_cast

unfoldable pub cast_number : Any → Outcome ℤ
cast_number (number n) = ok n
cast_number _ = err bad_any_cast

-- `std::any_cast` to a map of strings.
unfoldable pub cast_texts : Any → Outcome (List (Bytes × Bytes))
cast_texts (texts m) = ok m
cast_texts _ = err bad_any_cast

-- The `try` of `GetString`; the messages that it prints are left out.
abbrev pub text_or_empty : Outcome Bytes → Bytes
text_or_empty (ok s) = s
text_or_empty (err e) = []

unfoldable pub get_string : ComputationContext → Bytes → Bytes
unfolding cast_text
get_string c k = text_or_empty (cast_text (get c k))

-- A `Get` after a `Put`: the value under its key, and under any other what was there.
pub get-put :
    (c : ComputationContext) (k j : Bytes) (v : Any)
    → get (put c k v) j ≡ (if str_eq j k then v else get c j)
unfolding get put
get-put c k j v = rw (map_find-set k v j c.symbols) (ground arith)

pub get-put_self : (c : ComputationContext) (k : Bytes) (v : Any) → get (put c k v) k ≡ v
get-put_self c k v = rw (get-put c k k v) (ground (arith, str_eq_iff k k))

pub get-put_ne :
    (c : ComputationContext) (k j : Bytes) (v : Any)
    → str_eq j k ≡ false
    → get (put c k v) j ≡ get c j
get-put_ne c k j v h = rw (get-put c k j v, h)

-- `GetString` after a `Put`: the text that was put, or the empty text where a value of another type
-- was put; under any other key what was there.
pub get_string-put :
    (c : ComputationContext) (k j : Bytes) (v : Any)
    → get_string (put c k v) j
      ≡ (if str_eq j k then text_or_empty (cast_text v) else get_string c j)
unfolding get_string
get_string-put c k j v = rw (get-put c k j v) (ground arith)
