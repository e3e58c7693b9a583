-- ===== src/LoadBalancer/Negative.antt =====
-- The weighted strategy at a server whose weight is negative.
use asabru_commons.Base.Int.{ℤ, pos, negsuc, to_size-pos}
use asabru_commons.Base.{
  ℕ, zero, suc, ◌^◌, ◌<◌, ◌≡◌, refl, arith, ok, length, get_elem?, some, replicate,
}
use asabru_commons.LoadBalancer.Requests.{requests-suc}
use asabru_commons.LoadBalancer.RoundRobin.{at_lem}
use asabru_commons.LoadBalancer.{LoadBalancer, WeightedRoundRobinStrategy, requests, decrement}

decrement-negsuc : (v : ℕ) → decrement (negsuc v) ≡ negsuc v
unfolding decrement
decrement-negsuc v = ground arith

module _ {ℓ} {A : Type ℓ} (weight_of : A → ℤ) (b : LoadBalancer A)
    (few : length b.servers < 2 ^ 31) where
  select_negative :
      (k v : ℕ) {a : A}
      → k < length b.servers
      → get_elem? b.servers k ≡ some a
      → WeightedRoundRobinStrategy weight_of
          (record { current_index = pos k; weight = negsuc v })
          b.servers
        ≡ ok (a, record { current_index = pos k; weight = negsuc v })
  unfolding WeightedRoundRobinStrategy
  select_negative k v h e =
      rw (decrement-negsuc v) (rw (to_size-pos k (omega arith), at_lem b.servers k e))

  -- A server whose weight is negative keeps every later request once its turn has begun.
  pub negative_weight_sticks :
      (n k v : ℕ) {a : A}
      → k < length b.servers
      → get_elem? b.servers k ≡ some a
      → requests
          (WeightedRoundRobinStrategy weight_of)
          n
          (record { current_index = pos k; weight = negsuc v })
          b
        ≡ ok (replicate n a, record { current_index = pos k; weight = negsuc v })
  negative_weight_sticks zero k v h e = unfold requests in refl
  negative_weight_sticks (suc n) k v h e =
      requests-suc (WeightedRoundRobinStrategy weight_of) b n (select_negative k v h e)
        (negative_weight_sticks n k v h e)
