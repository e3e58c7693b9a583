-- ===== src/LoadBalancer.antt =====
-- src/load_balancer: `LoadBalancer` and its strategies. The function-local `static` variables of
-- a strategy are its state; one such state serves every balancer over the same type of server.
pub mod Requests
pub mod RoundRobin
pub mod Weighted
pub mod Negative
mod Examples
use asabru_commons.Base.Int.{ℤ, pos, negsuc, ◌+ℤ◌, ◌-ℤ◌, ltb_ℤ, is_zero, to_size, to_int}
use asabru_commons.Base.{
  ℕ, zero, suc, ◌%◌, ◌==◌, none, some, List, [], ◌∷◌, ◌++◌, length, get_elem?, if◌then◌else◌,
  Outcome, ok, err, undefined_behaviour, ◌>>=◌,
}

-- The virtual `selectServer` over the strategy's state.
abbrev pub LoadBalancerStrategy {ℓ} : Type 0 → Type ℓ → Type ℓ
LoadBalancerStrategy S A = S → List A → Outcome (A × S)

-- `servers[i]`; an index out of range is undefined behaviour.
unfoldable pub at {ℓ} : {A : Type ℓ} → List A → ℕ → Outcome A
at servers i = elim (get_elem? servers i) [ none ↦ err undefined_behaviour | some a ↦ ok a ]

-- `x % n` on `size_t`, where a zero divisor is undefined behaviour.
unfoldable pub size_mod : ℕ → ℕ → Outcome ℕ
size_mod x n = if n == 0 then err undefined_behaviour else ok (x % n)

pub record LoadBalancer {ℓ} (A : Type ℓ) : Type ℓ where
  pub servers : List A

module _ {ℓ} {A : Type ℓ} where
  unfoldable pub add_server : LoadBalancer A → A → LoadBalancer A
  add_server b server = record b { servers = b.servers ++ server ∷ [] }

  unfoldable pub remove_all_servers : LoadBalancer A → LoadBalancer A
  remove_all_servers b = record b { servers = [] }

  unfoldable pub request_server :
      {S : Type 0} → LoadBalancerStrategy S A → S → LoadBalancer A → Outcome (A × S)
  request_server select s b = select s b.servers

  -- The loops of `main`: `n` requests one after the other, and the servers that they reach.
  unfoldable pub requests :
      {S : Type 0} → LoadBalancerStrategy S A → ℕ → S → LoadBalancer A → Outcome (List A × S)
  unfolding request_server
  requests select zero s b = ok ([], s)
  requests select (suc n) s b = do
    (server, s') ← request_server select s b
    (rest, s'') ← requests select n s' b
    ok (server ∷ rest, s'')

  unfoldable pub RandomStrategy : LoadBalancerStrategy ℕ A
  RandomStrategy rand servers = do
    i ← size_mod rand (length servers)
    server ← at servers i
    ok (server, rand)

  -- The state is `currentIndex`.
  unfoldable pub RoundRobinStrategy : LoadBalancerStrategy ℤ A
  RoundRobinStrategy current_index servers = do
    i ← size_mod (to_size (current_index +ℤ pos 1)) (length servers)
    server ← at servers (to_size (to_int i))
    ok (server, to_int i)

-- The `static` variables of the weighted strategy.
pub record Turn : Type 0 where
  pub current_index : ℤ
  pub weight : ℤ

abbrev pub first_turn : Turn
first_turn = record { current_index = negsuc 0; weight = pos 0 }

-- `if (weight > 0) weight--;`
unfoldable pub decrement : ℤ → ℤ
unfolding ◌-ℤ◌
decrement weight = if ltb_ℤ (pos 0) weight then weight -ℤ pos 1 else weight

module _ {ℓ} {A : Type ℓ} (weight_of : A → ℤ) where
  -- The body of `if (weight == 0)`.
  unfoldable pub next_turn : Turn → List A → Outcome Turn
  next_turn t servers = do
    i ← size_mod (to_size (t.current_index +ℤ pos 1)) (length servers)
    server ← at servers (to_size (to_int i))
    ok (record { current_index = to_int i; weight = weight_of server })

  unfoldable pub WeightedRoundRobinStrategy : LoadBalancerStrategy Turn A
  unfolding decrement next_turn
  WeightedRoundRobinStrategy t servers = do
    let t' = record t { weight = decrement t.weight }
    t'' ← if is_zero t'.weight then next_turn t' servers else ok t'
    server ← at servers (to_size t''.current_index)
    ok (server, t'')
