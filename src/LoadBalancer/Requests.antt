-- ===== src/LoadBalancer/Requests.antt =====
-- Sequences of requests, for every strategy.
use Prim.Native.Nat.add
use asabru_commons.Base.{
  ℕ, zero, suc, ◌+◌, ◌≡◌, refl, List, [], ◌∷◌, ◌++◌, arith, ok, err, Outcome, err, drop, get_elem?,
  some,
}
use asabru_commons.LoadBalancer.{LoadBalancer, LoadBalancerStrategy, requests}

module _ {ℓ} {A : Type ℓ} {S : Type 0} (select : LoadBalancerStrategy S A)
    (b : LoadBalancer A) where
  pub requests-suc :
      (n : ℕ) {s s' s'' : S} {a : A} {xs : List A}
      → select s b.servers ≡ ok (a, s')
      → requests select n s' b ≡ ok (xs, s'')
      → requests select (suc n) s b ≡ ok (a ∷ xs, s'')
  unfolding requests
  requests-suc n p q = rw (p, q) refl

  requests-suc_inv :
      (n : ℕ) (s : S) {s'' : S} {xs : List A}
      → requests select (suc n) s b ≡ ok (xs, s'')
      → (a : A) × (s' : S) × (r : List A) × (select s b.servers ≡ ok (a, s'))
        × (requests select n s' b ≡ ok (r, s''))
        × (xs ≡ a ∷ r)
  unfolding requests
  requests-suc_inv n s {s''} {xs} p = first (select s b.servers) refl
    where
      second :
          (a : A) (s' : S) (r : Outcome (List A × S))
          → select s b.servers ≡ ok (a, s')
          → requests select n s' b ≡ r
          → (a : A) × (s' : S) × (r : List A) × (select s b.servers ≡ ok (a, s'))
            × (requests select n s' b ≡ ok (r, s''))
            × (xs ≡ a ∷ r)
      second a s' (ok (r, t)) e f =
          let q = rw (e, f) at p in (a, s', r, e, ground arith, ground arith)
      second a s' (err x) e f = absurd (cc (rw (e, f) at p))

      first :
          (r : Outcome (A × S))
          → select s b.servers ≡ r
          → (a : A) × (s' : S) × (r : List A) × (select s b.servers ≡ ok (a, s'))
            × (requests select n s' b ≡ ok (r, s''))
            × (xs ≡ a ∷ r)
      first (ok (a, s')) e = second a s' (requests select n s' b) e refl
      first (err x) e = absurd (cc (rw e at p))

  -- Requests in a row are the first ones followed by the others.
  pub requests-add :
      (m k : ℕ) (s : S) {s' s'' : S} {xs ys : List A}
      → requests select m s b ≡ ok (xs, s')
      → requests select k s' b ≡ ok (ys, s'')
      → requests select (m + k) s b ≡ ok (xs ++ ys, s'')
  requests-add zero k s p q = rw add.zero (unfold requests in ground arith)
  requests-add (suc m) k s p q =
      let (a, s1, r, first, later, e) = requests-suc_inv m s p in
      rw (add.suc, e) (requests-suc (m + k) first (requests-add m k s1 later q))

pub drop-get_elem? {ℓ} :
    {A : Type ℓ} (xs : List A) (k : ℕ) {a : A}
    → get_elem? xs k ≡ some a
    → drop k xs ≡ a ∷ drop (suc k) xs
drop-get_elem? [] k h = absurd (cc)
drop-get_elem? (x ∷ xs) zero h = ground arith
drop-get_elem? (x ∷ xs) (suc k) h = drop-get_elem? xs k h

pub get_elem?_of-drop {ℓ} :
    {A : Type ℓ} (ys : List A) (k : ℕ) {x : A} {xs : List A}
    → drop k ys ≡ x ∷ xs
    → (get_elem? ys k ≡ some x) × (drop (suc k) ys ≡ xs)
get_elem?_of-drop [] zero h = absurd (cc)
get_elem?_of-drop [] (suc k) h = absurd (cc)
get_elem?_of-drop (y ∷ ys) zero h = ground arith
get_elem?_of-drop (y ∷ ys) (suc k) h = get_elem?_of-drop ys k h
