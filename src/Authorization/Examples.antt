-- ===== src/Authorization/Examples.antt =====
-- A small configuration, migrated and asked, over a service that grants everything.
use asabru_commons.Base.Int.{pos}
use asabru_commons.Base.{◌≡◌, refl, List, [], ◌∷◌, Bool, true, some, Bytes, codes, ok, str_eq}
use asabru_commons.Strings.{
  map_find, map_set, find, substr, substr_from, cut, to_upper, open_stream, is_empty, is_good,
  is_prefix, str_ltb,
}
use asabru_commons.Strings.Decimal.{is_digit, take_digits, value}
use asabru_commons.Http.Response.{extract_int}
use asabru_commons.Commands.Context.{
  text, number, flag, ComputationContext, put, get, get_string, cast_text, cast_number,
}
use asabru_commons.Commands.TypeFactory.{
  PluginSystem, load_plugin, get_type, find_lib, libnameothy, index_command,
}
use asabru_commons.Commands.Dispatcher.{
  BaseComputationCommand, base_command, register_command, dispatch, run_command,
}
use asabru_commons.Authorization.Types.{Predicate}
use asabru_commons.Authorization.InitData.{
  Xml, parse_afcas_authorization_data, open_root, read_all, read_predicate, field,
}
use asabru_commons.Authorization.AfcasClient
use asabru_commons.Authorization.AfcasClient.{
  Json, Factory, run_migration, for_each, add_principal, post_request, send_request, stoi, check_ok,
  process_response, rfind,
}
use asabru_commons.Authorization.Strategy.{is_authorized, check_all, authorized_key}
use asabru_commons.Authorization.Migration.{entries, enter, run_migration-entries}
use asabru_commons.Authorization.Granted.{Decided, is_authorized-Decided}

-- The request command, which answers 200 with some content.
abbrev request_command : BaseComputationCommand
request_command = record base_command {
  execute = λ ctx. ok (
    true,
    put (put ctx (codes "status_code") (number (pos 200))) (codes "response_content")
        (text (codes "{}")),
  );
}

abbrev system : PluginSystem BaseComputationCommand
system = record {
  basename = λ path. path;
  dlopen = λ path. true;
  create = λ path symbol. some request_command;
}

-- Objects are printed as their values, and every value read is an object with the data `true`.
abbrev json : Json
json = record {
  Value = Bytes;
  dump = λ fields. codes "{}";
  parse = λ s. some s;
  data_flag = λ v. some true;
}

-- Documents with one predicate, whose fields are "x".
abbrev xml : Xml
xml = record {
  Document = Bytes;
  Element = Bytes;
  parse = λ s. some s;
  roots = λ doc name. name ∷ [];
  children = λ e name. name ∷ [];
  text = λ e. some (codes "x");
}

abbrev factory : Factory
factory = record { commands_map = []; lib_names = codes "libHTTPRequestCommand.so" ∷ [] }

abbrev loaded : Factory
loaded = record factory { commands_map = (codes "HTTPRequestCommand", some request_command) ∷ [] }

abbrev client : AfcasClient.AfcasClient
client = record {
  host = codes "h";
  port = codes "80";
  principals = [];
  groups = record { group_name = codes "g"; members = codes "m" ∷ [] } ∷ [];
  resources = record { id = codes "1"; name = codes "r" } ∷ [];
  operations = [];
  resource_access_predicates = [];
}

run_migration-entries_example :
    run_migration system json client factory
    ≡ for_each (enter system json client) (entries client) factory
run_migration-entries_example = run_migration-entries system json client factory

abbrev ask : ComputationContext
ask = record {
  symbols =
      (codes "authenticated_info", text (codes "bob")) ∷ (codes "authorization_data", text []) ∷ [];
}

ask_granted :
    is_authorized system json xml client ask factory
    ≡ ok (put ask authorized_key (flag true), loaded)
unfolding is_authorized check_all parse_afcas_authorization_data cast_text get map_find open_root
    read_all read_predicate field AfcasClient.is_authorized send_request register_command
    load_plugin find_lib find libnameothy substr_from cut check_ok process_response rfind stoi
    str_eq cast_number get_string put dispatch run_command get_type index_command extract_int
    is_digit take_digits value is_empty is_good is_prefix map_set open_stream str_ltb substr
    to_upper
ask_granted = refl

is_authorized-Decided_example :
    (ps : List Predicate) × (b : Bool) × (parse_afcas_authorization_data xml ask ≡ ok ps)
    × Decided system json client ps b factory loaded
    × (put ask authorized_key (flag true) ≡ put ask authorized_key (flag b))
is_authorized-Decided_example =
    is_authorized-Decided system json client xml ask (put ask authorized_key (flag true)) factory
      loaded ask_granted
