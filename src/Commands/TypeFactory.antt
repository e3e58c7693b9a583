-- ===== src/Commands/TypeFactory.antt =====
-- src/TypeFactory.h and .cpp, src/util/libnameothy.cpp: plugins, found by name and loaded once. What
-- the system provides is the section's `PluginSystem`.
use asabru_commons.Base.{
  ◌≡◌, List, [], ◌∷◌, ◌++◌, Bool, true, false, Bytes, codes, Option, none, some, Outcome, ok, err,
  runtime_error, undefined_behaviour, exit_failure, out_of_range, ◌>>=◌, >>=-eq-ok, if◌then◌else◌,
  arith, str_eq, str_eq_iff,
}
use asabru_commons.Strings.{find, cut, substr_from, to_upper, map_set, map_find, str_ltb}
use asabru_commons.Strings.Order.{map_find-set}

-- `basename`, `dlopen` (whether it gives a handle) and the function `create...` of a library, where
-- the library has it.
pub record PluginSystem (C : Type 0) : Type 0 where
  pub basename : Bytes → Bytes
  pub dlopen : Bytes → Bool
  pub create : Bytes → Bytes → Option C

-- `commands_map` holds null pointers, `none`, beside commands; `libNames` is in the order of the set.
pub record TypeFactory (C : Type 0) : Type 0 where
  pub commands_map : List (Bytes × Option C)
  pub lib_names : List Bytes

-- `libNames.insert` for each file that the glob found.
unfoldable pub set_insert : Bytes → List Bytes → List Bytes
set_insert s [] = s ∷ []
set_insert s (t ∷ ts) =
    if str_eq s t then t ∷ ts else if str_ltb s t then s ∷ t ∷ ts else t ∷ set_insert s ts

unfoldable pub insert_all : List Bytes → List Bytes → List Bytes
unfolding set_insert
insert_all [] names = names
insert_all (f ∷ fs) names = insert_all fs (set_insert f names)

unfoldable pub update_libs : {C : Type 0} → TypeFactory C → List Bytes → TypeFactory C
unfolding insert_all
update_libs f filenames = record f { lib_names = insert_all filenames f.lib_names }

-- `s.find(pluginName) != npos`.
contains : Bytes → Bytes → Bool
contains s name = elim (find name s) [ none ↦ false | some i ↦ true ]

-- `std::find_if` over the names.
unfoldable pub find_lib : Bytes → List Bytes → Option Bytes
unfolding contains
find_lib name [] = none
find_lib name (s ∷ ss) = if contains s name then some s else find_lib name ss

-- `(char) toupper(libname[0]) + libname.substr(1)`; on an empty name `substr` throws.
capitalise : Bytes → Outcome Bytes
capitalise [] = err out_of_range
capitalise (c ∷ s) = ok (to_upper c ∷ s)

-- The first token of the base name, which is missing if the base name is empty.
first_token : Bytes → Outcome Bytes
first_token [] = err undefined_behaviour
first_token (c ∷ s) = ok (cut b'.' (c ∷ s)).0

-- The library's name without "lib", and the class name.
unfoldable pub libnameothy : (Bytes → Bytes) → Bytes → Outcome (Bytes × Bytes)
unfolding capitalise first_token
libnameothy basename path = do
  token ← first_token (basename path)
  libname ← substr_from token 3
  class_name ← capitalise libname
  ok (libname, class_name)

-- `commands_map[key]`: a missing key is entered with a null pointer.
index_found : {C : Type 0} → TypeFactory C → Bytes → Option (Option C) → Option C × TypeFactory C
index_found f key none = (none, record f { commands_map = map_set key none f.commands_map })
index_found f key (some p) = (p, f)

unfoldable pub index_command : {C : Type 0} → TypeFactory C → Bytes → Option C × TypeFactory C
unfolding index_found
index_command f key = index_found f key (map_find key f.commands_map)

module _ {C : Type 0} (sys : PluginSystem C) where
  open sys use {basename, dlopen, create}

  -- `create()` of a missing function calls a null pointer.
  instantiate : TypeFactory C → Bytes → Option C → Outcome (TypeFactory C)
  instantiate f class_name none = err undefined_behaviour
  instantiate f class_name (some a) =
      ok (record f { commands_map = map_set class_name (some a) f.commands_map })

  -- The body of the `try`, behind `libnameothy` and the look into the map.
  load_unknown : TypeFactory C → Bytes → Bytes → Option C → Outcome (TypeFactory C)
  unfolding instantiate
  load_unknown f plugin class_name (some a) = ok f
  load_unknown f plugin class_name none =
      if dlopen plugin
      then instantiate f class_name (create plugin (codes "create" ++ class_name))
      else err exit_failure

  -- The `catch` takes what `libnameothy` throws; undefined behaviour it cannot take.
  load_named : TypeFactory C → Bytes → Outcome (Bytes × Bytes) → Outcome (TypeFactory C)
  unfolding load_unknown
  load_named f plugin (ok (_, class_name)) =
      load_unknown (index_command f class_name).1 plugin class_name (index_command f class_name).0
  load_named f plugin (err undefined_behaviour) = err undefined_behaviour
  load_named f plugin (err e) = ok f

  load_lib : TypeFactory C → Option Bytes → Outcome (TypeFactory C)
  unfolding load_named
  load_lib f none = err runtime_error
  load_lib f (some plugin) = load_named f plugin (libnameothy basename plugin)

  unfoldable pub load_plugin : TypeFactory C → Bytes → Outcome (TypeFactory C)
  unfolding load_lib
  load_plugin f plugin_name = load_lib f (find_lib plugin_name f.lib_names)

  get_found : TypeFactory C → Bytes → Option (Option C) → Outcome (Option C × TypeFactory C)
  get_found f type none = load_plugin f type >>= λ f'. ok (index_command f' type)
  get_found f type (some p) = ok (index_command f type)

  unfoldable pub get_type : TypeFactory C → Bytes → Outcome (Option C × TypeFactory C)
  unfolding get_found
  get_type f type = get_found f type (map_find type f.commands_map)

  index_again :
      (f : TypeFactory C) (type : Bytes)
      → map_find type (index_command f type).1.commands_map ≡ some (index_command f type).0
  unfolding index_command
  index_again f type =
      ground (arith, map_find-set type none type f.commands_map, str_eq_iff type type)

  index_twice :
      (f : TypeFactory C) (type : Bytes)
      → index_command (index_command f type).1 type ≡ index_command f type
  unfolding index_command
  index_twice f type =
      ground (arith, map_find-set type none type f.commands_map, str_eq_iff type type)

  get_type_known :
      (f : TypeFactory C) (type : Bytes)
      → get_type (index_command f type).1 type ≡ ok (index_command f type)
  unfolding get_type get_found
  get_type_known f type = rw (index_again f type, index_twice f type)

  get_found_cases :
      (f : TypeFactory C) (type : Bytes) (o : Option (Option C)) {r : Option C × TypeFactory C}
      → get_found f type o ≡ ok r
      → (g : TypeFactory C) × (ok (index_command g type) ≡ ok r)
  unfolding get_found
  get_found_cases f type (some p) h = (f, h)
  get_found_cases f type none h =
      let (g, _, q) = >>=-eq-ok (load_plugin f type) (λ f'. ok (index_command f' type)) h in (g, q)

  get_type_cases :
      (f : TypeFactory C) (type : Bytes) {r : Option C × TypeFactory C}
      → get_type f type ≡ ok r
      → (g : TypeFactory C) × (ok (index_command g type) ≡ ok r)
  unfolding get_type
  get_type_cases f type h = get_found_cases f type (map_find type f.commands_map) h

  -- What `GetType` gave for a type it gives again, and it loads nothing for it and changes nothing.
  pub get_type_again :
      (f f' : TypeFactory C) (type : Bytes) (p : Option C)
      → get_type f type ≡ ok (p, f')
      → get_type f' type ≡ ok (p, f')
  get_type_again f f' type p h =
      let (g, q) = get_type_cases f type h in let k = get_type_known g type in cc
