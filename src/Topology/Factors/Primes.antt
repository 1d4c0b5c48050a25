-- ===== src/Topology/Factors/Primes.antt =====
-- What `_prime_factors` returns.
use native.Mathlib.Nat.{
  div-lt_self, div-mul_cancel, dvd_of_mod-eq-zero, dvd_trans, mod-eq-zero_of_dvd, mod_self,
  mul_assoc, mul_comm,
}
use rea_lhf.Base.{
  ==_false, List, [], ap, arith, inr, le_refl, refl, some, suc, sym, zero, ℕ, ℕ_discrete, ◌%◌, ◌*◌,
  ◌++◌, ◌+◌, ◌-◌, ◌/◌, ◌<◌, ◌∙◌, ◌∷◌, ◌≡◌, ◌≢◌, ◌≤◌,
}
use rea_lhf.Topology.Factors.{factor_loop, find_factor, prime_factors}

abbrev pub IsPrime : ℕ → Type 0
IsPrime p = (2 ≤ p) × ((d : ℕ) → 2 ≤ d → d < p → p % d ≢ 0)

abbrev pub AllPrime : List ℕ → Type 0
AllPrime [] = Unit
AllPrime (p ∷ ps) = IsPrime p × AllPrime ps

abbrev pub product : List ℕ → ℕ
product [] = 1
product (p ∷ ps) = p * product ps

record Least (n q : ℕ) : Type 0 where
  pub two_le : 2 ≤ q
  pub divides : n % q ≡ 0
  pub least : (d : ℕ) → 2 ≤ d → d < q → n % d ≢ 0

find_factor-Least :
    (r c n : ℕ)
    → c + r ≡ n + 1
    → 2 ≤ c
    → 2 ≤ n
    → ((d : ℕ) → 2 ≤ d → d < c → n % d ≢ 0)
    → (q : ℕ) × (find_factor r c n ≡ some q) × Least n q
unfolding find_factor
find_factor-Least zero c n e h k l = absurd (l n k (omega arith) (mod_self n))
find_factor-Least (suc r) c n e h k l = elim (ℕ_discrete (n % c) 0) [
  | yes p ↦ (c, rw p, record { two_le = h; divides = p; least = l })
  | no p ↦
      let (q, f, m) = find_factor-Least r (suc c) n (omega arith) (omega arith) k (further p) in
      (q, rw (==_false (n % c) 0 p) f, m)
]
  where
    further : n % c ≢ 0 → (d : ℕ) → 2 ≤ d → d < suc c → n % d ≢ 0
    further p d a b = elim (ℕ_discrete d c) [ yes q ↦ rw q p | no q ↦ l d a (omega arith) ]

Least-IsPrime : (n q : ℕ) → Least n q → IsPrime q
Least-IsPrime n q m = (
  m.two_le,
  λ d a b e. m.least d a b (
      mod-eq-zero_of_dvd d (dvd_trans d (dvd_of_mod-eq-zero d e) (dvd_of_mod-eq-zero q m.divides))),
)

product-append : (ps : List ℕ) (q : ℕ) → product (ps ++ q ∷ []) ≡ product ps * q
product-append [] q = omega arith
product-append (p ∷ ps) q = rw (product-append ps q) (sym (mul_assoc p (product ps) q))

AllPrime-append : (ps : List ℕ) (q : ℕ) → AllPrime ps → IsPrime q → AllPrime (ps ++ q ∷ [])
AllPrime-append [] q h k = (k, tt)
AllPrime-append (p ∷ ps) q (h, hs) k = (h, AllPrime-append ps q hs k)

quotient : (n q : ℕ) → 2 ≤ q → 1 ≤ n → n % q ≡ 0 → (n / q * q ≡ n) × (1 ≤ n / q) × (n / q < n)
quotient n q h k e =
    let m : n / q * q ≡ n = div-mul_cancel q (dvd_of_mod-eq-zero q e) in
    (m, positive (n / q) m, div-lt_self k h)
  where
    positive : (a : ℕ) → a * q ≡ n → 1 ≤ a
    positive zero p = omega (arith, p, k)
    positive (suc a) p = omega arith

factor_loop-suc :
    (fuel n q : ℕ) (primes : List ℕ)
    → n ≢ 1
    → find_factor (n - 1) 2 n ≡ some q
    → factor_loop (suc fuel) n primes ≡ factor_loop fuel (n / q) (primes ++ q ∷ [])
unfolding factor_loop
factor_loop-suc fuel n q primes ne f = rw (==_false n 1 ne, f, factor_loop)

factor_loop-IsPrime :
    (fuel n : ℕ) (primes : List ℕ)
    → 1 ≤ n
    → n ≤ fuel
    → AllPrime primes
    → (ps : List ℕ) × (factor_loop fuel n primes ≡ some ps)
      × AllPrime ps
      × (product ps ≡ product primes * n)
unfolding factor_loop
factor_loop-IsPrime zero n primes h k a = absurd (omega arith)
factor_loop-IsPrime (suc fuel) n primes h k a = elim (ℕ_discrete n 1) [
  | yes e ↦ rw e (primes, refl, a, omega arith)
  | no ne ↦
      let (q, f, m) =
        find_factor-Least (n - 1) 2 n (omega arith) (omega arith) (omega arith)
          (λ d x y. absurd (omega arith)) in
      let (whole, one_le, less) = quotient n q m.two_le h m.divides in
      let (ps, run, are_prime, prod) =
        factor_loop-IsPrime fuel (n / q) (primes ++ q ∷ []) one_le (omega arith)
          (AllPrime-append primes q a (Least-IsPrime n q m)) in
      (
        ps,
        factor_loop-suc fuel n q primes ne f ∙ run,
        are_prime,
        prod
            ∙ rw (product-append primes q) (
                mul_assoc (product primes) q (n / q)
                ∙ ap (λ z. product primes * z) (mul_comm q (n / q) ∙ whole)),
      )
]

-- For a positive number `_prime_factors` ends, and returns primes whose product is the number.
pub prime_factors_lem :
    (n : ℕ)
    → 1 ≤ n
    → (ps : List ℕ) × (prime_factors n ≡ inr (some ps)) × AllPrime ps × (product ps ≡ n)
unfolding prime_factors
prime_factors_lem n h =
    let (ps, run, primes, prod) = factor_loop-IsPrime n n [] h (le_refl n) tt in
    (ps, rw (==_false n 0 (nonzero n h), run), primes, omega (arith, prod))
  where
    nonzero : (n : ℕ) → 1 ≤ n → n ≢ 0
    nonzero n h e = omega (arith, h, e)
