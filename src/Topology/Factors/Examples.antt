-- ===== src/Topology/Factors/Examples.antt =====
-- The factors of twelve.
use rea_lhf.Base.{List, [], arith, inr, refl, some, ℕ, ◌∷◌, ◌≡◌}
use rea_lhf.Topology.Factors.{factor_loop, find_factor, prime_factors}
use rea_lhf.Topology.Factors.Primes.{AllPrime, prime_factors_lem, product}

prime_factors_lem_example :
    (ps : List ℕ) × (prime_factors 12 ≡ inr (some ps)) × AllPrime ps × (product ps ≡ 12)
prime_factors_lem_example = prime_factors_lem 12 (omega arith)

twelve : prime_factors 12 ≡ inr (some (2 ∷ 2 ∷ 3 ∷ []))
unfolding prime_factors factor_loop find_factor
twelve = refl
