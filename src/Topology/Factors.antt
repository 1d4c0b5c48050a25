-- ===== src/Topology/Factors.antt =====
-- realhf/base/topology.py, `_prime_factors`.
pub mod Primes
mod Examples
use rea_lhf.Base.{
  List, Option, [], false, if◌then◌else◌, inl, inr, none, some, suc, true, zero, ℕ, ◌%◌, ◌++◌, ◌-◌,
  ◌/◌, ◌==◌, ◌∷◌, ◌⊎◌,
}

-- The `for` loop over `range(2, N + 1)`: candidates left and the next one.
unfoldable pub find_factor : ℕ → ℕ → ℕ → Option ℕ
find_factor zero c n = none
find_factor (suc r) c n =
    let later = find_factor r (suc c) n in if n % c == 0 then some c else later

-- The `while` loop, on fuel; none is a loop that is not over when the fuel is used up.
unfoldable pub factor_loop : ℕ → ℕ → List ℕ → Option (List ℕ)
factor_loop zero n primes = none
factor_loop (suc fuel) n primes = elim (n == 1) [
  | true ↦ some primes
  | false ↦ elim (find_factor (n - 1) 2 n) [
    | some c ↦ factor_loop fuel (n / c) (primes ++ c ∷ [])
    | none ↦ factor_loop fuel n primes
  ]
]

pub data FactorError : Type 0 where
  value_error : FactorError

-- The fuel is the number itself, which each round makes less.
unfoldable pub prime_factors : ℕ → FactorError ⊎ Option (List ℕ)
unfolding factor_loop
prime_factors n = if n == 0 then inl value_error else inr (factor_loop n n [])
