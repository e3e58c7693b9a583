-- ===== src/LoadBalancer/RoundRobin.antt =====
-- Runs of requests with the round-robin strategy.
use Prim.Native.Nat.add
use native.Mathlib.Nat.{mod-eq_of_lt, mod_self, add-zero, add-suc, suc-add}
use asabru_commons.Base.Int.{
  ℤ, pos, negsuc, ◌+ℤ◌, to_size, to_size-pos, to_int_of_lt, +ℤ-one, +ℤ-one_neg,
}
use asabru_commons.Base.{
  ℕ, zero, suc, ◌+◌, ◌^◌, ◌≤◌, ◌<◌, ◌≡◌, List, ◌++◌, arith, ok, length, get_elem?, some, take, drop,
  get_elem?-lt, length-drop, ◌∙◌, ◌-◌, append-nil, take_all, subst,
}
use asabru_commons.LoadBalancer.Requests.{requests-suc, requests-add, drop-get_elem?}
use asabru_commons.LoadBalancer.{LoadBalancer, RoundRobinStrategy, requests, at, size_mod}

-- `currentIndex` when server `k` is next and no wrap is due.
abbrev pub before : ℕ → ℤ
before zero = negsuc 0
before (suc i) = pos i

-- The position after a round of `n` requests that began at `k`.
abbrev pub last : ℕ → ℕ → ℕ
last zero n = n
last (suc i) n = suc i

-- The index that comes after it.
pub next_slot : (k : ℕ) → k < 2 ^ 31 → to_size (before k +ℤ pos 1) ≡ k
next_slot zero h = rw +ℤ-one_neg (to_size-pos 0 (omega arith))
next_slot (suc i) h = rw +ℤ-one (to_size-pos (suc i) (omega arith))

pub size_mod_of_lt : (x n : ℕ) → x < n → size_mod x n ≡ ok x
unfolding size_mod
size_mod_of_lt x n h = ground (arith, mod-eq_of_lt h)

pub at_lem {ℓ} :
    {A : Type ℓ} (servers : List A) (i : ℕ) {a : A}
    → get_elem? servers i ≡ some a
    → at servers i ≡ ok a
unfolding at
at_lem servers i e = ground arith

pub size_mod_self : (n : ℕ) → 0 < n → size_mod n n ≡ size_mod 0 n
unfolding size_mod
size_mod_self n h = ground (arith, mod_self n, mod-eq_of_lt h)

module _ {ℓ} {A : Type ℓ} (b : LoadBalancer A) (few : length b.servers < 2 ^ 31) where
  select_next :
      (k : ℕ) {a : A}
      → k < length b.servers
      → get_elem? b.servers k ≡ some a
      → RoundRobinStrategy (before k) b.servers ≡ ok (a, pos k)
  unfolding RoundRobinStrategy
  select_next k h e = rw (
    next_slot k (omega arith),
    size_mod_of_lt k _ h,
    to_int_of_lt k (omega arith),
    to_size-pos k (omega arith),
    at_lem b.servers k e,
  )

  -- From a server on, as many requests as fit before the end of the list.
  pub walk :
      (m k : ℕ)
      → k + m ≤ length b.servers
      → requests RoundRobinStrategy m (before k) b ≡ ok (take m (drop k b.servers), before (k + m))
  walk zero k h = unfold requests in rw (add-zero)
  walk (suc m) k h =
      let found = get_elem?-lt b.servers k (omega arith) in
      let next = select_next k (omega arith) found.1 in
      let rest = walk m (suc k) (omega arith) in
      rw (drop-get_elem? b.servers k found.1, add-suc)
        (requests-suc RoundRobinStrategy b m next (rw suc-add at rest))

  -- Behind the last server comes the first one.
  select_wrap :
      0 < length b.servers
      → RoundRobinStrategy (before (length b.servers)) b.servers
        ≡ RoundRobinStrategy (before 0) b.servers
  unfolding RoundRobinStrategy
  select_wrap h =
      rw (next_slot (length b.servers) (omega arith), next_slot 0 (omega arith), size_mod_self _ h)

  requests_wrap :
      (m : ℕ)
      → 0 < length b.servers
      → requests RoundRobinStrategy (suc m) (before (length b.servers)) b
        ≡ requests RoundRobinStrategy (suc m) (before 0) b
  unfolding requests
  requests_wrap m h = rw (select_wrap h)

  first_leg :
      (k : ℕ)
      → k ≤ length b.servers
      → requests RoundRobinStrategy (length b.servers - k) (before k) b
        ≡ ok (drop k b.servers, before (length b.servers))
  first_leg k h =
      rw
        (
          take_all (drop k b.servers) (length b.servers - k)
              (omega (arith, length-drop k b.servers)),
          len,
        )
        at (walk (length b.servers - k) k (omega arith))
    where
      len : k + (length b.servers - k) ≡ length b.servers
      len = omega arith

  second_leg :
      (i : ℕ)
      → i < length b.servers
      → requests RoundRobinStrategy (suc i) (before (length b.servers)) b
        ≡ ok (take (suc i) b.servers, pos i)
  second_leg i h =
      requests_wrap i (omega arith) ∙ (rw (add.zero (suc i)) at (walk (suc i) 0 (omega arith)))

  -- While the servers stay the same, as many requests as there are servers reach each of them once,
  -- in the order of the list from the server that is next, for every position `k` of the strategy.
  pub round_robin :
      (k : ℕ)
      → k ≤ length b.servers
      → 0 < length b.servers
      → requests RoundRobinStrategy (length b.servers) (before k) b
        ≡ ok (drop k b.servers ++ take k b.servers, before (last k (length b.servers)))
  round_robin zero h p = rw append-nil (
      subst
        (λ m.
          requests RoundRobinStrategy m (before 0) b ≡ ok (b.servers, before (length b.servers)))
        (omega arith) (first_leg 0 h))
  round_robin (suc i) h p =
      subst
        (λ m.
          requests RoundRobinStrategy m (pos i) b
          ≡ ok (drop (suc i) b.servers ++ take (suc i) b.servers, pos i))
        (omega arith)
        (requests-add RoundRobinStrategy b (length b.servers - suc i) (suc i) (pos i)
          (first_leg (suc i) h) (second_leg i h))
