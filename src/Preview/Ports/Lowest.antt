-- ===== src/Preview/Ports/Lowest.antt =====
-- The allocated port is the lowest free one.
use samohost.Prelude.{
  ℕ, suc, zero, ◌+◌, ◌≤◌, ◌<◌, ◌≡◌, ◌⊎◌, inl, inr, sym, ap, ◌∙◌, eqb, eqb→eq, true, false, Option,
  none, some, List, arith, Bool-cases,
}
use samohost.Preview.Ports.{PortPool, taken, allocate_from, allocate_port}

-- What a search from `first` over `count` ports found.
pub data Found (used : List ℕ) (first count : ℕ) : Option ℕ → Type 0 where
  lowest :
      (p : ℕ)
      → first ≤ p
      → p < first + count
      → taken used p ≡ false
      → ((q : ℕ) → first ≤ q → q < p → taken used q ≡ true)
      → Found used first count (some p)
  exhausted :
      ((q : ℕ) → first ≤ q → q < first + count → taken used q ≡ true) → Found used first count none

first_or_above : (first q : ℕ) → first ≤ q → (first ≡ q) ⊎ (suc first ≤ q)
first_or_above first q low = elim (Bool-cases (eqb first q)) [
  | inl same ↦ inl (eqb→eq first q same)
  | inr apart ↦ inr (above apart)
]
  where
    above : eqb first q ≡ false → suc first ≤ q
    above apart = ground (arith, low, apart)

taken-below :
    (used : List ℕ) (first : ℕ) (P : ℕ → Type 0)
    → taken used first ≡ true
    → ((q : ℕ) → suc first ≤ q → P q → taken used q ≡ true)
    → (q : ℕ) → first ≤ q
    → P q
    → taken used q ≡ true
taken-below used first P busy above q low in_range = elim (first_or_above first q low) [
  | inl same ↦ ap (taken used) (sym same) ∙ busy
  | inr higher ↦ above q higher in_range
]

Found-suc :
    (used : List ℕ) (first count : ℕ) (r : Option ℕ)
    → taken used first ≡ true
    → Found used (suc first) count r
    → Found used first (suc count) r
Found-suc used first count _ busy (lowest p low high is_free below) =
    lowest p (omega (arith, low)) (omega (arith, high)) is_free
      (taken-below used first (λ q. q < p) busy below)
Found-suc used first count _ busy (exhausted all_taken) = exhausted (
    taken-below used first (λ q. q < first + suc count) busy
      (λ q low high. all_taken q low (omega (arith, high))))

allocate_from-Found :
    (used : List ℕ) (first count : ℕ) → Found used first count (allocate_from used first count)
unfolding allocate_from
allocate_from-Found used first zero = exhausted (λ q low high. absurd (omega (arith, low, high)))
allocate_from-Found used first (suc count) = elim (Bool-cases (taken used first)) [
  | inl busy ↦ rw busy (
      Found-suc used first count (allocate_from used (suc first) count) busy
        (allocate_from-Found used (suc first) count))
  | inr is_free ↦ rw is_free (
      lowest first (omega arith) (omega arith) is_free
        (λ q low high. absurd (omega (arith, low, high))))
]

-- The allocated port lies in the pool, is not in use, and every lower port of the pool is in use; no
-- port is allocated only where every port of the pool is in use.
pub allocate_port-Found :
    (used : List ℕ) (pool : PortPool) → Found used pool.base pool.size (allocate_port used pool)
unfolding allocate_port
allocate_port-Found used pool = allocate_from-Found used pool.base pool.size
