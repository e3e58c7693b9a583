-- ===== src/Authorization/Migration.antt =====
-- A migration as one list of requests.
use asabru_commons.Base.{
  ◌≡◌, refl, List, [], ◌∷◌, ◌++◌, map, Bool, true, false, ◌&&◌, Bytes, codes, if◌then◌else◌,
  Outcome, ok, ◌>>=◌, ◌>>◌, >>=-ext, >>=-assoc, sym, ◌∙◌,
}
use asabru_commons.Commands.TypeFactory.{PluginSystem}
use asabru_commons.Commands.Dispatcher.{BaseComputationCommand}
use asabru_commons.Authorization.Types.{Principal, Operation, Resource, ResourceAccessPredicate}
use asabru_commons.Authorization.AfcasClient.{
  Json, Factory, AfcasClient, post_request, check_ok, exists_already, for_each, add_principal,
  add_resource, add_operation, add_resource_access_predicate, run_migration,
}

-- A request to enter something, and whether it may be there already.
pub record Entry : Type 0 where
  pub uri : Bytes
  pub fields : List (Bytes × Bytes)
  pub lenient : Bool

abbrev pub principal_entry : Principal → Entry
principal_entry p = record {
  uri = codes "/authorization-management/principals";
  fields =
      (codes "name", p.name)
      ∷ (codes "email", p.email)
      ∷ (codes "displayName", p.display_name)
      ∷ (codes "description", p.description)
      ∷ (codes "dataSource", p.data_source)
      ∷ (codes "principalType", p.principal_type)
      ∷ [];
  lenient = false;
}

abbrev pub resource_entry : Resource → Entry
resource_entry r = record {
  uri = codes "/authorization-management/resources";
  fields = (codes "id", r.id) ∷ (codes "name", r.name) ∷ [];
  lenient = false;
}

abbrev pub operation_entry : Operation → Entry
operation_entry o = record {
  uri = codes "/authorization-management/operations";
  fields = (codes "id", o.id) ∷ (codes "name", o.name) ∷ (codes "description", o.description) ∷ [];
  lenient = false;
}

abbrev pub predicate_entry : ResourceAccessPredicate → Entry
predicate_entry p = record {
  uri = codes "/authorization-management/permissions";
  fields =
      (codes "principalId", p.principal_name)
      ∷ (codes "operationId", p.operation_id)
      ∷ (codes "resourceId", p.resource_id)
      ∷ (codes "predicateType", p.predicate_type)
      ∷ [];
  lenient = true;
}

-- The entries that a client makes, in their order. The groups are not among them.
abbrev pub entries : AfcasClient → List Entry
entries c =
    map principal_entry c.principals
    ++ (map resource_entry c.resources
        ++ (map operation_entry c.operations ++ map predicate_entry c.resource_access_predicates))

module _ (sys : PluginSystem BaseComputationCommand) (json : Json) where
  abbrev pub enter : AfcasClient → Entry → Factory → Outcome Factory
  enter c e f = do
    (response, f') ← post_request sys json c e.uri e.fields f
    if e.lenient && exists_already response then ok f' else check_ok response >> ok f'

  for_each-append :
      (act : Entry → Factory → Outcome Factory) (xs ys : List Entry) (f : Factory)
      → for_each act (xs ++ ys) f ≡ (for_each act xs f >>= for_each act ys)
  unfolding for_each
  for_each-append act [] ys f = refl
  for_each-append act (x ∷ xs) ys f =
      >>=-ext (act x f) (λ g. for_each-append act xs ys g)
      ∙ sym (>>=-assoc (act x f) (for_each act xs) (for_each act ys))

  for_each-map :
      {A : Type 0} (entry : A → Entry) (act : A → Factory → Outcome Factory) (c : AfcasClient)
      (xs : List A)
      → ((x : A) (f : Factory) → act x f ≡ enter c (entry x) f)
      → (f : Factory) → for_each (enter c) (map entry xs) f ≡ for_each act xs f
  unfolding for_each
  for_each-map entry act c [] h f = refl
  for_each-map entry act c (x ∷ xs) h f =
      rw (h x f) (>>=-ext (enter c (entry x) f) (λ g. for_each-map entry act c xs h g))

  principals-entries :
      (c : AfcasClient) (xs : List Principal) (f : Factory)
      → for_each (enter c) (map principal_entry xs) f ≡ for_each (add_principal sys json c) xs f
  unfolding add_principal post_request
  principals-entries c xs f =
      for_each-map principal_entry (add_principal sys json c) c xs (λ x g. refl) f

  resources-entries :
      (c : AfcasClient) (xs : List Resource) (f : Factory)
      → for_each (enter c) (map resource_entry xs) f ≡ for_each (add_resource sys json c) xs f
  unfolding add_resource post_request
  resources-entries c xs f =
      for_each-map resource_entry (add_resource sys json c) c xs (λ x g. refl) f

  operations-entries :
      (c : AfcasClient) (xs : List Operation) (f : Factory)
      → for_each (enter c) (map operation_entry xs) f ≡ for_each (add_operation sys json c) xs f
  unfolding add_operation post_request
  operations-entries c xs f =
      for_each-map operation_entry (add_operation sys json c) c xs (λ x g. refl) f

  predicates-entries :
      (c : AfcasClient) (xs : List ResourceAccessPredicate) (f : Factory)
      → for_each (enter c) (map predicate_entry xs) f
        ≡ for_each (add_resource_access_predicate sys json c) xs f
  unfolding add_resource_access_predicate post_request
  predicates-entries c xs f =
      for_each-map predicate_entry (add_resource_access_predicate sys json c) c xs (λ x g. refl) f

  -- `runMigration` enters the principals, the resources, the operations and the permissions, each list
  -- in its order, and nothing for the groups; it ends at the first answer that is not 200, but for a
  -- permission that the service says exists already.
  pub run_migration-entries :
      (c : AfcasClient) (f : Factory)
      → run_migration sys json c f ≡ for_each (enter c) (entries c) f
  unfolding run_migration
  run_migration-entries c f = sym (
      for_each-append (enter c) (map principal_entry c.principals) _ f
      ∙ rw (principals-entries c c.principals f) (
          >>=-ext (for_each (add_principal sys json c) c.principals f) λ f1.
            for_each-append (enter c) (map resource_entry c.resources) _ f1
            ∙ rw (resources-entries c c.resources f1) (
                >>=-ext (for_each (add_resource sys json c) c.resources f1) λ f2.
                  for_each-append (enter c) (map operation_entry c.operations) _ f2
                  ∙ rw (operations-entries c c.operations f2) (
                      >>=-ext (for_each (add_operation sys json c) c.operations f2)
                        λ f3. predicates-entries c c.resource_access_predicates f3))))
