-- ===== src/Commands/Globothy.antt =====
-- src/util/globothy.cpp and `updateLibs` of src/TypeFactory.h: the plugins of a folder. `glob` is an
-- argument: its result and the paths that it found.
use asabru_commons.Base.{
  Option, none, some, List, [], ◌++◌, Bytes, codes, if◌then◌else◌, Outcome, ok, err, runtime_error,
}
use asabru_commons.Base.Int.{ℤ, is_zero}
use asabru_commons.Commands.TypeFactory.{TypeFactory, update_libs}

unfoldable pub globothy : (Bytes → ℤ × List Bytes) → Bytes → List Bytes
globothy glob pattern =
    let (glob_ret, paths) = glob pattern in if is_zero glob_ret then paths else []

-- The folder is the environment variable `PLUGINS_FOLDER_PATH`; plugins end in `.so`.
unfoldable pub update_libs_in :
    {C : Type 0} → (Bytes → ℤ × List Bytes) → Option Bytes → TypeFactory C → Outcome (TypeFactory C)
update_libs_in glob none f = err runtime_error
update_libs_in glob (some folder) f = ok (update_libs f (globothy glob (folder ++ codes "/*.so")))
