-- ===== src/Authorization/AfcasClient.antt =====
-- src/afcas/AfcasClient.h and .cpp: requests to the AFCAS service, sent by the command
-- `HTTPRequestCommand`. The JSON library is `Json`; a type factory is threaded through.
mod Responses
use asabru_commons.Base.Int.{ℤ, is_zero}
use asabru_commons.Base.{
  List, [], ◌∷◌, ◌++◌, Bool, Bytes, codes, if◌then◌else◌, Outcome, ok, err, ◌>>=◌, ◌>>◌,
  invalid_argument, out_of_range,
}
use asabru_commons.Strings.{find, open_stream}
use asabru_commons.Http.Method.{HttpMethod}
use asabru_commons.Http.Response.{extract_int}
use asabru_commons.Commands.Context.{
  text, number, method, ComputationContext, new_context, put, get, get_string, cast_number,
}
use asabru_commons.Commands.TypeFactory.{PluginSystem, TypeFactory}
use asabru_commons.Commands.Dispatcher.{BaseComputationCommand, register_command, dispatch}
use asabru_commons.Authorization.Types.{
  Principal, Group, Operation, Resource, ResourceAccessPredicate,
}
pub use Responses.{Json, HttpResponse, parsed, flag_of}
unfoldable pub use Responses.{rfind, json_part, check_ok, exists_already}

pub record AfcasClient : Type 0 where
  pub host : Bytes
  pub port : Bytes
  pub principals : List Principal
  pub groups : List Group
  pub resources : List Resource
  pub operations : List Operation
  pub resource_access_predicates : List ResourceAccessPredicate

abbrev pub Factory : Type 0
Factory = TypeFactory BaseComputationCommand

-- `std::stoi`.
unfoldable pub stoi : Bytes → Outcome ℤ
stoi s =
    let (n, stream) = extract_int (open_stream s) in
    if stream.fail then (if is_zero n then err invalid_argument else err out_of_range) else ok n

abbrev pub command_name : Bytes
command_name = codes "HTTPRequestCommand"

abbrev pub json_type : Bytes
json_type = codes "application/json"

-- A loop over a list of the client.
unfoldable pub for_each {ℓ} :
    {A : Type ℓ} → (A → Factory → Outcome Factory) → List A → Factory → Outcome Factory
for_each act [] f = ok f
for_each act (x ∷ xs) f = act x f >>= for_each act xs

module _ (sys : PluginSystem BaseComputationCommand) (json : Json) where
  open json use {dump, parse, data_flag}

  request_context : Bytes → ℤ → Bytes → HttpMethod → Bytes → Bytes → ComputationContext
  request_context host port uri m content content_type =
      put
        (put
          (put
            (put (put (put new_context (codes "host") (text host)) (codes "port") (number port))
              (codes "method") (method m))
            (codes "requestUri") (text uri))
          (codes "content") (text content))
        (codes "content-type") (text content_type)

  unfoldable pub send_request :
      Bytes
      → Bytes
      → Bytes
      → HttpMethod
      → Bytes
      → Bytes
      → Factory
      → Outcome (HttpResponse × Factory)
  unfolding request_context
  send_request host port uri m content content_type f = do
    (_, f1) ← register_command sys f command_name
    port_number ← stoi port
    let ctx = request_context host port_number uri m content content_type
    (_, w) ← dispatch sys (record { factory = f1; ctx = ctx }) command_name
    status_code ← cast_number (get w.ctx (codes "status_code"))
    ok (
      record {
        status_code = status_code;
        response = get_string w.ctx (codes "response");
        response_content = get_string w.ctx (codes "response_content");
      },
      w.factory,
    )

  -- A `POST` of an object of texts.
  unfoldable pub post_request :
      AfcasClient → Bytes → List (Bytes × Bytes) → Factory → Outcome (HttpResponse × Factory)
  post_request c uri fields f =
      send_request c.host c.port uri HttpMethod.post (dump fields) json_type f

  unfoldable pub add_principal : AfcasClient → Principal → Factory → Outcome Factory
  unfolding post_request
  add_principal c p f = do
    (response, f') ←
        post_request c (codes "/authorization-management/principals")
          ((codes "name", p.name)
            ∷ (codes "email", p.email)
            ∷ (codes "displayName", p.display_name)
            ∷ (codes "description", p.description)
            ∷ (codes "dataSource", p.data_source)
            ∷ (codes "principalType", p.principal_type)
            ∷ [])
          f
    check_ok response
    ok f'

  add_members : AfcasClient → Bytes → List Bytes → Factory → Outcome Factory
  add_members c group_name [] f = ok f
  add_members c group_name (member ∷ members) f = do
    (response, f') ←
        post_request c (codes "/authorization-management/principals/group-members")
          ((codes "groupName", group_name) ∷ (codes "memberName", member) ∷ []) f
    check_ok response
    add_members c group_name members f'

  unfoldable pub add_group : AfcasClient → Group → Factory → Outcome Factory
  unfolding add_members
  add_group c group f = add_members c group.group_name group.members f

  unfoldable pub add_resource : AfcasClient → Resource → Factory → Outcome Factory
  unfolding post_request
  add_resource c r f = do
    (response, f') ←
        post_request c (codes "/authorization-management/resources")
          ((codes "id", r.id) ∷ (codes "name", r.name) ∷ []) f
    check_ok response
    ok f'

  unfoldable pub add_operation : AfcasClient → Operation → Factory → Outcome Factory
  unfolding post_request
  add_operation c o f = do
    (response, f') ←
        post_request c (codes "/authorization-management/operations")
          ((codes "id", o.id) ∷ (codes "name", o.name) ∷ (codes "description", o.description) ∷ [])
          f
    check_ok response
    ok f'

  unfoldable pub add_resource_access_predicate :
      AfcasClient → ResourceAccessPredicate → Factory → Outcome Factory
  unfolding post_request
  add_resource_access_predicate c p f = do
    (response, f') ←
        post_request c (codes "/authorization-management/permissions")
          ((codes "principalId", p.principal_name)
            ∷ (codes "operationId", p.operation_id)
            ∷ (codes "resourceId", p.resource_id)
            ∷ (codes "predicateType", p.predicate_type)
            ∷ [])
          f
    if exists_already response then ok f' else check_ok response >> ok f'

  -- `processResponse`.
  unfoldable pub process_response : Bytes → Outcome json.Value
  unfolding json_part
  process_response response = do
    json_string ← json_part response (find (codes "{") response) (rfind b'}' response)
    parsed (parse json_string)

  unfoldable pub is_authorized :
      AfcasClient → Bytes → Bytes → Bytes → Factory → Outcome (Bool × Factory)
  is_authorized c principal_name operation_id resource_id f = do
    (res, f') ←
        send_request c.host c.port
          (codes "/authorization-provider/is-authorized?principalId="
            ++ (principal_name
                ++ (codes "&operationId="
                    ++ (operation_id ++ (codes "&resourceId=" ++ resource_id)))))
          HttpMethod.get [] json_type f
    check_ok res
    body ← process_response res.response_content
    b ← flag_of (data_flag body)
    ok (b, f')

  unfoldable pub run_migration : AfcasClient → Factory → Outcome Factory
  run_migration c f = do
    f1 ← for_each (add_principal c) c.principals f
    f2 ← for_each (add_resource c) c.resources f1
    f3 ← for_each (add_operation c) c.operations f2
    for_each (add_resource_access_predicate c) c.resource_access_predicates f3
