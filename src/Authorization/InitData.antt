-- ===== src/Authorization/InitData.antt =====
-- src/authorization/BaseAuthorizationStrategy.h: the data read from XML. The XML library is `Xml`.
use asabru_commons.Base.{
  List, [], ◌∷◌, Option, none, some, Bytes, codes, Outcome, ok, err, ◌>>=◌, runtime_error,
  undefined_behaviour,
}
use asabru_commons.Commands.Context.{ComputationContext, get, cast_text}
use asabru_commons.Authentication.Basic.{authenticated_info}
use asabru_commons.Authorization.Types.{
  Principal, Group, Operation, Resource, ResourceAccessPredicate, Predicate,
}

-- `parse` is `none` unless it is `XML_SUCCESS`; `children` are the elements that `FirstChildElement`
-- and then `NextSiblingElement` give for a name, and `roots` those of the document; `text` is
-- `GetText`, `none` for the null pointer.
pub record Xml : Type 1 where
  pub Document : Type 0
  pub Element : Type 0
  pub parse : Bytes → Option Document
  pub roots : Document → Bytes → List Element
  pub children : Element → Bytes → List Element
  pub text : Element → Option Bytes

-- The lists of a strategy that `parseInitData` fills.
pub record InitData : Type 0 where
  pub principals : List Principal
  pub groups : List Group
  pub operations : List Operation
  pub resources : List Resource
  pub access_predicates : List ResourceAccessPredicate

abbrev pub authorization_data_key : Bytes
authorization_data_key = codes "authorization_data"

abbrev pub first {ℓ} : {A : Type ℓ} → List A → Option A
first [] = none
first (x ∷ xs) = some x

-- `if (!x) throw std::runtime_error(error)`.
abbrev pub found {ℓ} : {A : Type ℓ} → Option A → Outcome A
found none = err runtime_error
found (some x) = ok x

-- A null pointer that is used.
abbrev pub used {ℓ} : {A : Type ℓ} → Option A → Outcome A
used none = err undefined_behaviour
used (some x) = ok x

-- The loop over the siblings, which pushes what each is read as.
unfoldable pub read_all {ℓ κ} :
    {A : Type ℓ} {B : Type κ} → (A → Outcome B) → List A → Outcome (List B)
read_all read [] = ok []
read_all read (x ∷ xs) = do y ← read x; ys ← read_all read xs; ok (y ∷ ys)

module _ (xml : Xml) where
  open xml use {Document, Element, parse, roots, children, text}

  -- `element->FirstChildElement(name)->GetText()`.
  unfoldable pub field : Element → Bytes → Outcome Bytes
  field e name = do child ← used (first (children e name)); used (text child)

  unfoldable pub read_principal : Element → Outcome Principal
  read_principal e = do
    name ← field e (codes "Name")
    email ← field e (codes "Email")
    display_name ← field e (codes "DisplayName")
    description ← field e (codes "Description")
    data_source ← field e (codes "DataSource")
    principal_type ← field e (codes "PrincipalType")
    ok (record {
      name = name;
      email = email;
      display_name = display_name;
      description = description;
      data_source = data_source;
      principal_type = principal_type;
    })

  -- The members of a group without the element `Members` are none.
  read_members : Option Element → Outcome (List Bytes)
  read_members none = ok []
  read_members (some e) = read_all (λ member. used (text member)) (children e (codes "Member"))

  unfoldable pub read_group : Element → Outcome Group
  unfolding read_members
  read_group e = do
    group_name ← field e (codes "Name")
    members ← read_members (first (children e (codes "Members")))
    ok (record { group_name = group_name; members = members })

  unfoldable pub read_operation : Element → Outcome Operation
  read_operation e = do
    id ← field e (codes "Id")
    name ← field e (codes "Name")
    description ← field e (codes "Description")
    ok (record { id = id; name = name; description = description })

  unfoldable pub read_resource : Element → Outcome Resource
  read_resource e = do
    id ← field e (codes "Id")
    name ← field e (codes "Name")
    ok (record { id = id; name = name })

  unfoldable pub read_access_predicate : Element → Outcome ResourceAccessPredicate
  read_access_predicate e = do
    principal_name ← field e (codes "principalName")
    operation_id ← field e (codes "operationId")
    resource_id ← field e (codes "resourceId")
    predicate_type ← field e (codes "predicateType")
    ok (record {
      principal_name = principal_name;
      operation_id = operation_id;
      resource_id = resource_id;
      predicate_type = predicate_type;
    })

  -- The document and its root element.
  unfoldable pub open_root : Bytes → Bytes → Outcome Element
  open_root xml_text name = do doc ← found (parse xml_text); found (first (roots doc name))

  -- `parseInitData`, into lists that are empty before.
  unfoldable pub parse_init_data : ComputationContext → Outcome InitData
  parse_init_data ctx = do
    xml_text ← cast_text (get ctx authorization_data_key)
    root ← open_root xml_text (codes "data")
    principals_element ← found (first (children root (codes "principals")))
    principals ← read_all read_principal (children principals_element (codes "principal"))
    groups_element ← found (first (children root (codes "groups")))
    groups ← read_all read_group (children groups_element (codes "group"))
    operations_element ← found (first (children root (codes "operations")))
    operations ← read_all read_operation (children operations_element (codes "operation"))
    resources_element ← found (first (children root (codes "resources")))
    resources ← read_all read_resource (children resources_element (codes "resource"))
    predicates_element ← found (first (children root (codes "predicates")))
    predicates ← read_all read_access_predicate (children predicates_element (codes "predicate"))
    ok (record {
      principals = principals;
      groups = groups;
      operations = operations;
      resources = resources;
      access_predicates = predicates;
    })

  unfoldable pub read_predicate : Bytes → Element → Outcome Predicate
  read_predicate username e = do
    resource_id ← field e (codes "resourceId")
    operation_id ← field e (codes "operationId")
    ok (record {
      resource_id = resource_id;
      operation_id = operation_id;
      principal_name = username;
    })

  unfoldable pub parse_afcas_authorization_data : ComputationContext → Outcome (List Predicate)
  parse_afcas_authorization_data ctx = do
    xml_text ← cast_text (get ctx authorization_data_key)
    username ← cast_text (get ctx authenticated_info)
    root ← open_root xml_text (codes "authorization")
    predicates_element ← found (first (children root (codes "predicates")))
    read_all (read_predicate username) (children predicates_element (codes "predicate"))
