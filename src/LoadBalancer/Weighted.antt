-- ===== src/LoadBalancer/Weighted.antt =====
-- Runs of requests with the weighted strategy.
use native.Mathlib.Nat.{add-zero}
use asabru_commons.Base.Int.{ℤ, pos, pos_part, to_size-pos, to_int_of_lt, ◌-ℤ◌}
use asabru_commons.Base.{
  ℕ, zero, suc, ◌+◌, ◌^◌, ◌≤◌, ◌<◌, ◌≡◌, refl, List, [], ◌∷◌, ◌++◌, arith, ok, length, get_elem?,
  some, drop, replicate, All, ◌⊎◌, inl, inr,
}
use asabru_commons.LoadBalancer.Requests.{requests-suc, requests-add, get_elem?_of-drop}
use asabru_commons.LoadBalancer.RoundRobin.{
  before, next_slot, size_mod_of_lt, at_lem, size_mod_self,
}
use asabru_commons.LoadBalancer.{
  LoadBalancer, WeightedRoundRobinStrategy, requests, Turn, decrement, next_turn,
}

-- A weight of 0 counts as 1: the turn is over after its first request.
abbrev pub share : ℕ → ℕ
share zero = 1
share (suc n) = suc n

-- What is left of the weight when the turn is over.
abbrev pub spent : ℕ → ℕ
spent zero = 0
spent (suc n) = 1

-- A turn that is over, with server `k` next.
abbrev pub due : ℕ → ℕ → Turn
due k w = record { current_index = before k; weight = pos w }

decrement_due : (w : ℕ) → w ≤ 1 → decrement (pos w) ≡ pos 0
unfolding decrement ◌-ℤ◌
decrement_due w h = ground arith

decrement-suc : (w : ℕ) → decrement (pos (suc w)) ≡ pos w
unfolding decrement ◌-ℤ◌
decrement-suc w = ground arith

spent_le : (n : ℕ) → spent n ≤ 1
spent_le zero = omega arith
spent_le (suc n) = omega arith

module _ {ℓ} {A : Type ℓ} (weight_of : A → ℤ) where
  abbrev pub weight_at : A → ℕ
  weight_at a = pos_part (weight_of a)

  abbrev pub IsWeighted : A → Type 0
  IsWeighted a = weight_of a ≡ pos (weight_at a)

  -- The servers of one round, each as often as its weight says.
  abbrev pub round : List A → List A
  round [] = []
  round (a ∷ xs) = replicate (share (weight_at a)) a ++ round xs

  abbrev pub round_size : List A → ℕ
  round_size [] = 0
  round_size (a ∷ xs) = share (weight_at a) + round_size xs

  -- What is left of the weight after a round that began with `w` left.
  abbrev pub left_over : ℕ → List A → ℕ
  left_over w [] = w
  left_over w (a ∷ xs) = left_over (spent (weight_at a)) xs

share_pos : (n : ℕ) → 0 < share n
share_pos zero = omega arith
share_pos (suc n) = omega arith

round_size_pos {ℓ} :
    {A : Type ℓ} (weight_of : A → ℤ) (xs : List A) → 0 < length xs → 0 < round_size weight_of xs
round_size_pos weight_of [] h = elim h [ ]
round_size_pos weight_of (x ∷ xs) h = omega (arith, share_pos (weight_at weight_of x))

module _ {ℓ} {A : Type ℓ} (weight_of : A → ℤ) (b : LoadBalancer A)
    (few : length b.servers < 2 ^ 31) where
  select_due :
      (k w : ℕ) {a : A}
      → w ≤ 1
      → k < length b.servers
      → get_elem? b.servers k ≡ some a
      → WeightedRoundRobinStrategy weight_of (due k w) b.servers
        ≡ ok (a, record { current_index = pos k; weight = weight_of a })
  unfolding WeightedRoundRobinStrategy next_turn
  select_due k w {a} h lt e =
      rw
        (
          decrement_due w h,
          next_slot k (omega arith),
          size_mod_of_lt k _ lt,
          to_int_of_lt k (omega arith),
          to_size-pos k (omega arith),
          at_lem b.servers k e,
        )
        (rw (to_size-pos k (omega arith), at_lem b.servers k e))

  select_stay :
      (k w : ℕ) {a : A}
      → k < length b.servers
      → get_elem? b.servers k ≡ some a
      → WeightedRoundRobinStrategy weight_of
          (record { current_index = pos k; weight = pos (suc (suc w)) })
          b.servers
        ≡ ok (a, record { current_index = pos k; weight = pos (suc w) })
  unfolding WeightedRoundRobinStrategy next_turn
  select_stay k w h e =
      rw (decrement-suc (suc w)) (rw (to_size-pos k (omega arith), at_lem b.servers k e))

  -- The requests of a turn behind its first one.
  stay :
      (k w : ℕ) {a : A}
      → k < length b.servers
      → get_elem? b.servers k ≡ some a
      → requests
          (WeightedRoundRobinStrategy weight_of)
          w
          (record { current_index = pos k; weight = pos (suc w) })
          b
        ≡ ok (replicate w a, due (suc k) 1)
  stay k zero h e = unfold requests in refl
  stay k (suc w) h e =
      requests-suc (WeightedRoundRobinStrategy weight_of) b w (select_stay k w h e) (stay k w h e)

  turn :
      (k w n : ℕ) {a : A}
      → w ≤ 1
      → k < length b.servers
      → get_elem? b.servers k ≡ some a
      → weight_of a ≡ pos n
      → requests (WeightedRoundRobinStrategy weight_of) (share n) (due k w) b
        ≡ ok (replicate (share n) a, due (suc k) (spent n))
  turn k w zero h lt e p =
      requests-suc (WeightedRoundRobinStrategy weight_of) b 0 (rw p at (select_due k w h lt e))
        (unfold requests in refl)
  turn k w (suc n) h lt e p =
      requests-suc (WeightedRoundRobinStrategy weight_of) b n (rw p at (select_due k w h lt e))
        (stay k n lt e)

  -- The turns of the servers from `k` to the end of the list.
  turns :
      (k w : ℕ) (xs : List A)
      → w ≤ 1
      → k + length xs ≡ length b.servers
      → drop k b.servers ≡ xs
      → All (IsWeighted weight_of) xs
      → requests (WeightedRoundRobinStrategy weight_of) (round_size weight_of xs) (due k w) b
        ≡ ok (round weight_of xs, due (length b.servers) (left_over weight_of w xs))
  turns k w [] h e d p = unfold requests in rw (← e, add-zero)
  turns k w (x ∷ xs) h e d (px, ps) =
      let (found, rest) = get_elem?_of-drop b.servers k d in
      requests-add (WeightedRoundRobinStrategy weight_of) b (share (weight_at weight_of x))
        (round_size weight_of xs) (due k w)
        (turn k w (weight_at weight_of x) h (omega arith) found px)
        (turns (suc k) (spent (weight_at weight_of x)) xs (spent_le _) (omega arith) rest ps)

  select_wrap :
      (w : ℕ)
      → w ≤ 1
      → 0 < length b.servers
      → WeightedRoundRobinStrategy weight_of (due (length b.servers) w) b.servers
        ≡ WeightedRoundRobinStrategy weight_of (due 0 w) b.servers
  unfolding WeightedRoundRobinStrategy next_turn
  select_wrap w h p = rw (decrement_due w h) (
      rw (next_slot (length b.servers) (omega arith), next_slot 0 (omega arith), size_mod_self _ p))

  requests_wrap :
      (n w : ℕ)
      → 0 < n
      → w ≤ 1
      → 0 < length b.servers
      → requests (WeightedRoundRobinStrategy weight_of) n (due (length b.servers) w) b
        ≡ requests (WeightedRoundRobinStrategy weight_of) n (due 0 w) b
  unfolding requests
  requests_wrap zero w q h p = elim q [ ]
  requests_wrap (suc n) w q h p = rw (select_wrap w h p)

  -- While no weight is negative and the servers stay the same, a round of requests that begins before
  -- the first server or behind the last one serves the servers in the order of the list, each as often
  -- in a row as its weight says and at least once, and ends behind the last one.
  pub weighted_round_robin :
      (k w : ℕ)
      → (k ≡ 0) ⊎ (k ≡ length b.servers)
      → w ≤ 1
      → 0 < length b.servers
      → All (IsWeighted weight_of) b.servers
      → requests (WeightedRoundRobinStrategy weight_of) (round_size weight_of b.servers) (due k w) b
        ≡ ok (round weight_of b.servers, due (length b.servers) (left_over weight_of w b.servers))
  weighted_round_robin k w (inl first) h some_server p =
      rw first (turns 0 w b.servers h (omega arith) refl p)
  weighted_round_robin k w (inr over) h some_server p =
      rw (over, requests_wrap _ w (round_size_pos weight_of b.servers some_server) h some_server)
        (turns 0 w b.servers h (omega arith) refl p)
