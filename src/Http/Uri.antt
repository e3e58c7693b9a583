-- ===== src/Http/Uri.antt =====
-- `Uri` of src/http/uri.h. Only the path is ever set; `port_` starts undefined and is never read.
use asabru_commons.Base.{ℕ, ◌≡◌, refl, Bool, map, [], ◌∷◌, Bytes, str_eq, arith}
use asabru_commons.Strings.{to_lower, str_ltb}

pub record Uri : Type 0 where
  pub path : Bytes
  pub scheme : Bytes
  pub host : Bytes

-- `Uri(path)` keeps the path as it is.
abbrev pub uri : Bytes → Uri
uri path = record { path = path; scheme = []; host = [] }

unfoldable pub set_path : Uri → Bytes → Uri
set_path u path = record u { path = map to_lower path }

unfoldable pub uri_eq : Uri → Uri → Bool
uri_eq u v = str_eq u.path v.path

unfoldable pub uri_lt : Uri → Uri → Bool
uri_lt u v = str_ltb u.path v.path

to_lower_idem : (c : ℕ) → to_lower (to_lower c) ≡ to_lower c
unfolding to_lower
to_lower_idem c = ground arith

to_lower_all : (s : Bytes) → map to_lower (map to_lower s) ≡ map to_lower s
to_lower_all [] = refl
to_lower_all (c ∷ s) = rw (to_lower_idem c, to_lower_all s)

-- Paths that `SetPath` sets are compared without regard to the case of their letters: a path and
-- its lower-case form give equal `Uri`s.
pub set_path-to_lower : (u : Uri) (s : Bytes) → set_path u (map to_lower s) ≡ set_path u s
unfolding set_path
set_path-to_lower u s = rw (to_lower_all s)
