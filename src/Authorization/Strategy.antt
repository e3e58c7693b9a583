-- ===== src/Authorization/Strategy.antt =====
-- src/authorization/AfcasAuthorizationStrategy.h and AuthorizationFactory.h. The constructor's
-- arguments are taken in their order, where the language leaves it open.
use asabru_commons.Base.{
  List, [], ◌∷◌, Bool, true, false, Option, none, some, Bytes, codes, str_eq, if◌then◌else◌,
  Outcome, ok, ◌>>=◌,
}
use asabru_commons.Commands.Context.{flag, ComputationContext, put, get, cast_text}
use asabru_commons.Commands.TypeFactory.{PluginSystem}
use asabru_commons.Commands.Dispatcher.{BaseComputationCommand}
use asabru_commons.Authorization.Types.{Predicate}
use asabru_commons.Authorization.InitData.{Xml, parse_init_data, parse_afcas_authorization_data}
use asabru_commons.Authorization.AfcasClient
use asabru_commons.Authorization.AfcasClient.{Json, Factory, run_migration}

abbrev pub authorized_key : Bytes
authorized_key = codes "authorized"

abbrev pub authorization_type_key : Bytes
authorization_type_key = codes "authorization_type"

module _ (sys : PluginSystem BaseComputationCommand) (json : Json) (xml : Xml) where
  -- The loop of `isAuthorized`, which ends at the first refusal.
  unfoldable pub check_all :
      AfcasClient.AfcasClient → List Predicate → Factory → Outcome (Bool × Factory)
  check_all c [] f = ok (true, f)
  check_all c (p ∷ ps) f = do
    (granted, f') ←
        AfcasClient.is_authorized sys json c p.principal_name p.operation_id p.resource_id f
    elim granted [ true ↦ check_all c ps f' | false ↦ ok (false, f') ]

  unfoldable pub is_authorized :
      AfcasClient.AfcasClient
      → ComputationContext
      → Factory
      → Outcome (ComputationContext × Factory)
  is_authorized c ctx f = do
    predicates ← parse_afcas_authorization_data xml ctx
    (b, f') ← check_all c predicates f
    ok (put ctx authorized_key (flag b), f')

  -- The constructor, with the two environment variables.
  unfoldable pub afcas_authorization_strategy :
      Bytes → Bytes → ComputationContext → Factory → Outcome (AfcasClient.AfcasClient × Factory)
  afcas_authorization_strategy host port ctx f = do
    init ← parse_init_data xml ctx
    let c : AfcasClient.AfcasClient = record {
      host = host;
      port = port;
      principals = init.principals;
      groups = init.groups;
      resources = init.resources;
      operations = init.operations;
      resource_access_predicates = init.access_predicates;
    }
    f' ← run_migration sys json c f
    ok (c, f')

  -- `none` is the null pointer, for a type that is not known.
  unfoldable pub create_authorization_strategy :
      Bytes
      → Bytes
      → ComputationContext
      → Factory
      → Outcome (Option AfcasClient.AfcasClient × Factory)
  create_authorization_strategy host port ctx f = do
    type ← cast_text (get ctx authorization_type_key)
    let made = afcas_authorization_strategy host port ctx f >>= λ (c, f'). ok (some c, f')
    if str_eq type (codes "afcas") then made else ok (none, f)
