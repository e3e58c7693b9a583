-- ===== src/Authorization/Granted.antt =====
-- What `isAuthorized` puts into the context.
use asabru_commons.Base.{
  ℕ, ◌+◌, ◌-◌, ◌%◌, ◌^◌, ◌≡◌, refl, List, [], ◌∷◌, ◌++◌, Bool, true, false, Option, none, some,
  Bytes, codes, Outcome, ok, err, >>=-eq-ok, ap, subst, arith,
}
use asabru_commons.Commands.TypeFactory.{PluginSystem}
use asabru_commons.Commands.Context.{ComputationContext, put, flag}
use asabru_commons.Commands.Dispatcher.{BaseComputationCommand}
use asabru_commons.Authorization.Types.{Predicate}
use asabru_commons.Authorization.InitData.{Xml, parse_afcas_authorization_data}
use asabru_commons.Authorization.AfcasClient
use asabru_commons.Authorization.AfcasClient.{
  Json, HttpResponse, Factory, parsed, flag_of, rfind, json_part, check_ok, send_request,
  process_response,
}
use asabru_commons.Base.Int.{ℤ, pos, negsuc}
use asabru_commons.Strings.{find, substr}
use asabru_commons.Http.Method.{HttpMethod}
use asabru_commons.Authorization.Strategy.{check_all, is_authorized, authorized_key}

module _ (sys : PluginSystem BaseComputationCommand) (json : Json)
    (c : AfcasClient.AfcasClient) where
  -- The path and the query of the question for a predicate.
  abbrev pub question : Predicate → Bytes
  question p =
      codes "/authorization-provider/is-authorized?principalId="
      ++ (p.principal_name
          ++ (codes "&operationId=" ++ (p.operation_id ++ (codes "&resourceId=" ++ p.resource_id))))

  -- The text from the first opening brace to the last closing one.
  abbrev pub IsObjectIn : Bytes → Bytes → Type 0
  IsObjectIn object content =
      (i : ℕ) × (j : ℕ) × (find (codes "{") content ≡ some i)
      × (rfind b'}' content ≡ some j)
      × (substr content i ((j + 1 + 2 ^ 64 - i) % 2 ^ 64) ≡ ok object)

  -- To a `GET` of the question the service at the client's host and port answers with status 200, and
  -- with an object of JSON whose `data` is `b`.
  abbrev pub Answers : Predicate → Bool → Factory → Factory → Type 0
  Answers p b f g =
      (r : HttpResponse) × (object : Bytes) × (v : json.Value) × (send_request sys json c.host
          c.port (question p) HttpMethod.get [] (codes "application/json") f
        ≡ ok (r, g))
      × (r.status_code ≡ pos 200)
      × IsObjectIn object r.response_content
      × (json.parse object ≡ some v)
      × (json.data_flag v ≡ some b)

  parsed-some {ℓ} : {A : Type ℓ} (o : Option A) {a : A} → parsed o ≡ ok a → o ≡ some a
  parsed-some none e = absurd (cc)
  parsed-some (some x) e = cc

  flag_of-some : (o : Option Bool) {b : Bool} → flag_of o ≡ ok b → o ≡ some b
  flag_of-some none e = absurd (cc)
  flag_of-some (some x) e = cc

  json_part-IsObjectIn :
      (content : Bytes) (o p : Option ℕ) {object : Bytes}
      → find (codes "{") content ≡ o
      → rfind b'}' content ≡ p
      → json_part content o p ≡ ok object
      → IsObjectIn object content
  unfolding json_part
  json_part-IsObjectIn content (some i) (some j) a b e = (i, j, a, b, e)
  json_part-IsObjectIn content none p a b e = absurd (cc)
  json_part-IsObjectIn content (some i) none a b e = absurd (cc)

  status_200 : (r : HttpResponse) (n : ℤ) → r.status_code ≡ n → check_ok r ≡ ok tt → n ≡ pos 200
  unfolding check_ok
  status_200 r (pos n) e h = ground (arith, e)
  status_200 r (negsuc n) e h = absurd (cc (rw e at h))

  is_authorized-Answers :
      (p : Predicate) (f g : Factory) {b : Bool}
      → AfcasClient.is_authorized sys json c p.principal_name p.operation_id p.resource_id f
        ≡ ok (b, g)
      → Answers p b f g
  unfolding AfcasClient.is_authorized process_response
  is_authorized-Answers p f g {b} h =
      let ((r, g1), sent, e1) = >>=-eq-ok (send_request sys json _ _ _ _ _ _ f) _ h in
      let (u, accepted, e2) = >>=-eq-ok (check_ok r) _ e1 in
      let (v, processed, e3) = >>=-eq-ok (process_response sys json r.response_content) _ e2 in
      let (object, cut, read) = >>=-eq-ok (json_part r.response_content _ _) _ processed in
      let (said_b, said, e4) = >>=-eq-ok (flag_of (json.data_flag v)) _ e3 in
      let same : said_b ≡ b = cc in
      let left : g1 ≡ g = cc in
      (
        r,
        object,
        v,
        rw (← left) sent,
        status_200 r r.status_code refl accepted,
        json_part-IsObjectIn r.response_content _ _ refl refl cut,
        parsed-some (json.parse object) read,
        rw (← same) (flag_of-some (json.data_flag v) said),
      )

  -- The questions of a decision: all granted, or granted up to the first that is refused.
  pub data Decided : List Predicate → Bool → Factory → Factory → Type 0 where
    all_granted : {f : Factory} → Decided [] true f f
    refused :
        {p : Predicate} {ps : List Predicate} {f g : Factory}
        → Answers p false f g
        → Decided (p ∷ ps) false f g
    granted :
        {p : Predicate} {ps : List Predicate} {b : Bool} {f g h : Factory}
        → Answers p true f g
        → Decided ps b g h
        → Decided (p ∷ ps) b f h

  abbrev result_of : Bool × Factory → Outcome (Bool × Factory) → Bool × Factory
  result_of d (ok r) = r
  result_of d (err e) = d

  Decided-next :
      (xml : Xml) (p : Predicate) (ps : List Predicate) (f : Factory) (answer : Bool) (f' : Factory)
      {b : Bool} {g : Factory}
      → Answers p answer f f'
      → (check_all sys json xml c ps f' ≡ ok (b, g) → Decided ps b f' g)
      → ◌≡◌ {A = Outcome (Bool × Factory)}
          (elim answer as (λ _. Outcome (Bool × Factory)) [
            | true ↦ check_all sys json xml c ps f'
            | false ↦ ok (false, f')
          ])
          (ok (b, g))
      → Decided (p ∷ ps) b f g
  Decided-next xml p ps f true f' e rest k = granted e (rest k)
  Decided-next xml p ps f false f' e rest k =
      subst (λ r. Decided (p ∷ ps) r.0 f r.1) (ap (result_of (false, f')) k) (refused e)

  check_all-Decided :
      (xml : Xml) (ps : List Predicate) (f : Factory) {b : Bool} {g : Factory}
      → check_all sys json xml c ps f ≡ ok (b, g)
      → Decided ps b f g
  unfolding check_all
  check_all-Decided xml [] f h =
      subst (λ r. Decided [] r.0 f r.1) (ap (result_of (true, f)) h) all_granted
  check_all-Decided xml (p ∷ ps) f {b} {g} h =
      let ((answer, f'), e, k) =
        >>=-eq-ok
          (AfcasClient.is_authorized sys json c p.principal_name p.operation_id p.resource_id f) _
          h in
      Decided-next xml p ps f answer f' (is_authorized-Answers p f f' e)
        (λ k. check_all-Decided xml ps f' k) k

  -- When `isAuthorized` returns, the context says whether the service granted all predicates of the
  -- context's data, and nothing else of it has changed: each was asked in turn until one was refused, by
  -- a `GET` with its principal, operation and resource, and answered with status 200 and an object of
  -- JSON whose `data` says whether it is granted.
  pub is_authorized-Decided :
      (xml : Xml) (ctx ctx' : ComputationContext) (f g : Factory)
      → is_authorized sys json xml c ctx f ≡ ok (ctx', g)
      → (ps : List Predicate) × (b : Bool) × (parse_afcas_authorization_data xml ctx ≡ ok ps)
        × Decided ps b f g
        × (ctx' ≡ put ctx authorized_key (flag b))
  unfolding is_authorized
  is_authorized-Decided xml ctx ctx' f g h =
      let (ps, e, k) = >>=-eq-ok (parse_afcas_authorization_data xml ctx) _ h in
      let ((b, g1), d, q) = >>=-eq-ok (check_all sys json xml c ps f) _ k in
      let same : g1 ≡ g = cc in
      let ctx_is : ctx' ≡ put ctx authorized_key (flag b) = cc in
      (ps, b, e, subst (Decided ps b f) same (check_all-Decided xml ps f d), ctx_is)
