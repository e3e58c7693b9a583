-- ===== src/LoadBalancer/Examples.antt =====
-- The balancers of src/load_balancer/main.cpp, run.
use asabru_commons.Base.Int.{ℤ, pos, negsuc, ◌+ℤ◌, to_size, to_int}
use asabru_commons.Base.{ℕ, ◌≡◌, refl, [], ◌∷◌, ok, arith, inl}
use asabru_commons.LoadBalancer.RoundRobin.{round_robin}
use asabru_commons.LoadBalancer.Weighted.{due, weighted_round_robin}
use asabru_commons.LoadBalancer.{
  LoadBalancer, add_server, remove_all_servers, requests, RoundRobinStrategy,
  WeightedRoundRobinStrategy, first_turn, at, size_mod, request_server,
}

abbrev three_servers : LoadBalancer ℕ
three_servers = record { servers = 1 ∷ 2 ∷ 3 ∷ [] }

-- `WeightedServer(id, weight)`, as its id and weight.
abbrev weighted_servers : LoadBalancer (ℕ × ℤ)
weighted_servers = record { servers = (1, pos 3) ∷ (2, pos 2) ∷ (3, pos 1) ∷ [] }

abbrev weight : ℕ × ℤ → ℤ
weight s = s.1

main_round_robin :
    requests RoundRobinStrategy 10 (negsuc 0) three_servers
    ≡ ok (1 ∷ 2 ∷ 3 ∷ 1 ∷ 2 ∷ 3 ∷ 1 ∷ 2 ∷ 3 ∷ 1 ∷ [], pos 0)
unfolding requests RoundRobinStrategy at size_mod to_int to_size ◌+ℤ◌ request_server
main_round_robin = refl

main_added :
    add_server (add_server (add_server (remove_all_servers three_servers) 1) 2) 3 ≡ three_servers
unfolding add_server remove_all_servers
main_added = refl

round_robin_example :
    requests RoundRobinStrategy 3 (pos 1) three_servers ≡ ok (3 ∷ 1 ∷ 2 ∷ [], pos 1)
round_robin_example = round_robin three_servers (omega arith) 2 (omega arith) (omega arith)

weighted_round_robin_example :
    requests (WeightedRoundRobinStrategy weight) 6 first_turn weighted_servers
    ≡ ok ((1, pos 3) ∷ (1, pos 3) ∷ (1, pos 3) ∷ (2, pos 2) ∷ (2, pos 2) ∷ (3, pos 1) ∷ [], due 3 1)
weighted_round_robin_example =
    weighted_round_robin weight weighted_servers (omega arith) 0 0 (inl refl) (omega arith)
      (omega arith) (refl, (refl, (refl, tt)))
