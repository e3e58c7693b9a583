-- ===== src/Commands/Examples.antt =====
-- Plugins of one library, run.
use asabru_commons.Base.{◌≡◌, refl, [], ◌∷◌, codes, Option, none, some, ok, true, false, ◌>>=◌}
use asabru_commons.Base.Int.{pos}
use asabru_commons.Strings.{map_find, map_set, find, substr_from, cut, to_upper}
use asabru_commons.Commands.Context.{ComputationContext, new_context, put, text}
use asabru_commons.Commands.TypeFactory.{
  PluginSystem, TypeFactory, get_type, load_plugin, find_lib, libnameothy, index_command,
}
use asabru_commons.Commands.Globothy.{globothy}
use asabru_commons.Commands.Dispatcher.{
  BaseComputationCommand, base_command, World, dispatch, dispatch_again, run_command, answer,
}

abbrev mark : BaseComputationCommand
mark = record base_command { execute = λ ctx. ok (false, put ctx (codes "k") (text (codes "v"))) }

-- The base name of a path that has none but the file's own name.
abbrev system : PluginSystem BaseComputationCommand
system = record {
  basename = λ path. path;
  dlopen = λ path. true;
  create = λ path symbol. some mark;
}

abbrev system_factory : TypeFactory BaseComputationCommand
system_factory = record {
  commands_map = [];
  lib_names = codes "libmark.so" ∷ codes "libMark.so" ∷ [];
}

abbrev marked_factory : TypeFactory BaseComputationCommand
marked_factory = record {
  commands_map = (codes "Mark", some mark) ∷ [];
  lib_names = system_factory.lib_names;
}

abbrev marked : ComputationContext
marked = record { symbols = (codes "k", text (codes "v")) ∷ [] }

abbrev start : World
start = record { factory = system_factory; ctx = new_context }

abbrev over : World
over = record { factory = marked_factory; ctx = marked }

load_mark : get_type system system_factory (codes "Mark") ≡ ok (some mark, marked_factory)
unfolding get_type map_find load_plugin find_lib find libnameothy substr_from cut index_command
    map_set to_upper
load_mark = refl

run_mark : dispatch system start (codes "Mark") ≡ ok (false, over)
unfolding dispatch get_type map_find load_plugin find_lib find libnameothy substr_from cut
    index_command map_set to_upper run_command put
run_mark = refl

-- A library whose name has a small letter registers its class under another name than it was asked
-- for by, which then has no command.
no_class :
    dispatch system start (codes "mark")
    ≡ ok (
      false,
      record {
        factory = record system_factory {
          commands_map = (codes "Mark", some mark) ∷ (codes "mark", none) ∷ [];
        };
        ctx = new_context;
      },
    )
unfolding dispatch get_type map_find load_plugin find_lib find libnameothy substr_from cut
    index_command map_set to_upper run_command
no_class = refl

dispatch_again_example :
    (command : Option BaseComputationCommand) × (run_command command new_context
      ≡ ok (false, marked))
    × ((ctx : ComputationContext)
        → dispatch system (record { factory = marked_factory; ctx = ctx }) (codes "Mark")
          ≡ (run_command command ctx >>= answer marked_factory))
dispatch_again_example = dispatch_again system start over (codes "Mark") false run_mark

-- A `glob` that fails finds no plugins.
no_plugins : globothy (λ pattern. (pos 3, codes "a.so" ∷ [])) (codes "/plugins/*.so") ≡ []
unfolding globothy
no_plugins = refl
