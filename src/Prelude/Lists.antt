-- ===== src/Prelude/Lists.antt =====
-- Lists measured and indexed by native numbers, under the library's names, and predicates on lists.
use Prim.Native.Nat.{ℕ, zero, suc, ◌+◌, ◌≤◌, min}
use mathlib.Core.Path.{◌≡◌, refl, ap}
use mathlib.Core.Logic.{◌↔◌}
use mathlib.Core.Bool.{Bool, true, false, ◌&&◌, ◌||◌}
use mathlib.Core.List.{List, [], ◌∷◌, ◌++◌, map}
use native.Mathlib.Omega.{arith}

module _ {ℓ} {A : Type ℓ} where
  abbrev pub length : List A → ℕ
  length [] = 0
  length (x ∷ xs) = suc (length xs)

  abbrev pub take : ℕ → List A → List A
  take zero xs = []
  take (suc n) [] = []
  take (suc n) (x ∷ xs) = x ∷ take n xs

  -- The library's `filter` takes a decision; this one takes a Boolean test, as the source does.
  abbrev pub filter : (A → Bool) → List A → List A
  filter p [] = []
  filter p (x ∷ xs) = let rest = filter p xs in elim (p x) [ true ↦ x ∷ rest | false ↦ rest ]

  abbrev pub all : (A → Bool) → List A → Bool
  all p [] = true
  all p (x ∷ xs) = p x && all p xs

  abbrev pub any : (A → Bool) → List A → Bool
  any p [] = false
  any p (x ∷ xs) = p x || any p xs

  pub length-append : (xs ys : List A) → length (xs ++ ys) ≡ length xs + length ys
  length-append [] ys = omega arith
  length-append (x ∷ xs) ys = omega (arith, length-append xs ys)

  pub length-take : (n : ℕ) (xs : List A) → length (take n xs) ≡ min n (length xs)
  length-take zero xs = omega arith
  length-take (suc n) [] = omega arith
  length-take (suc n) (x ∷ xs) = omega (arith, length-take n xs)

  pub length-filter : (p : A → Bool) (xs : List A) → length (filter p xs) ≤ length xs
  length-filter p [] = omega arith
  length-filter p (x ∷ xs) = ground (arith, length-filter p xs)

  pub length-filter-append :
      (p : A → Bool) (xs ys : List A)
      → length (filter p (xs ++ ys)) ≡ length (filter p xs) + length (filter p ys)
  length-filter-append p [] ys = omega arith
  length-filter-append p (x ∷ xs) ys = ground (arith, length-filter-append p xs ys)

pub length-map {ℓ κ} :
    {A : Type ℓ} {B : Type κ} (f : A → B) (xs : List A) → length (map f xs) ≡ length xs
length-map f [] = refl
length-map f (x ∷ xs) = ap suc (length-map f xs)

-- Every item satisfies a predicate, by recursion: the tactics read and build such tuples.
abbrev pub All {ℓ κ} : {A : Type ℓ} → (A → Type κ) → List A → Type κ
All P [] = Unit
All P (x ∷ xs) = P x × All P xs

module _ {ℓ κ} {A : Type ℓ} (P : A → Type κ) where
  pub All-append : (xs ys : List A) → All P xs → All P ys → All P (xs ++ ys)
  All-append [] ys h k = k
  All-append (x ∷ xs) ys h k = (h.0, All-append xs ys h.1 k)

  pub All-append_left : (xs ys : List A) → All P (xs ++ ys) → All P xs
  All-append_left [] ys h = tt
  All-append_left (x ∷ xs) ys h = (h.0, All-append_left xs ys h.1)

  pub All-filter : (p : A → Bool) (xs : List A) → All P xs → All P (filter p xs)
  All-filter p [] h = tt
  All-filter p (x ∷ xs) (h, hs) = ground (arith, h, All-filter p xs hs)

pub All-pair {ℓ κ μ} :
    {A : Type ℓ} (P : A → Type κ) (Q : Type μ) (xs : List A) → All P xs → Q → All (λ x. P x × Q) xs
All-pair P Q [] h q = tt
All-pair P Q (x ∷ xs) (h, hs) q = ((h, q), All-pair P Q xs hs q)

pub append_nil_iff {ℓ} : {A : Type ℓ} (xs ys : List A) → (xs ++ ys ≡ []) ↔ ((xs ≡ []) × (ys ≡ []))
append_nil_iff [] ys = (λ h. (refl, h), λ h. h.1)
append_nil_iff (x ∷ xs) ys = (λ h. absurd (ground (arith, h)), λ h. absurd (ground (arith, h.0)))

-- Two lists of errors, each empty exactly where something holds.
pub both_nil {ℓ κ} :
    {A : Type ℓ} {P Q : Type κ} {xs ys : List A}
    → (xs ≡ []) ↔ P
    → (ys ≡ []) ↔ Q
    → (xs ++ ys ≡ []) ↔ (P × Q)
both_nil {xs} {ys} (p, p') (q, q') = (
  λ h. let (e, f) = (append_nil_iff xs ys).0 h in (p e, q f),
  λ h. (append_nil_iff xs ys).1 (p' h.0, q' h.1),
)

pub All-mono {ℓ κ μ} :
    {A : Type ℓ} (P : A → Type κ) (Q : A → Type μ)
    → ((x : A) → P x → Q x)
    → (xs : List A) → All P xs
    → All Q xs
All-mono P Q step [] h = tt
All-mono P Q step (x ∷ xs) (h, hs) = (step x h, All-mono P Q step xs hs)

-- What holds of the filtered list holds of each item that passes the test.
pub All-unfiltered {ℓ κ} :
    {A : Type ℓ} (P : A → Type κ) (p : A → Bool) (xs : List A)
    → All P (filter p xs)
    → All (λ x. p x ≡ true → P x) xs
All-unfiltered P p [] h = tt
All-unfiltered P p (x ∷ xs) h = split (p x) refl h (All-unfiltered P p xs)
  where
    split :
        (b : Bool)
        → p x ≡ b
        → All P (elim b [ true ↦ x ∷ filter p xs | false ↦ filter p xs ])
        → (All P (filter p xs) → All (λ y. p y ≡ true → P y) xs)
        → (p x ≡ true → P x) × All (λ y. p y ≡ true → P y) xs
    split true e (h, hs) rest = ((λ _. h), rest hs)
    split false e hs rest = ((λ yes. absurd (ground (arith, e, yes))), rest hs)

All-zip {ℓ κ μ} :
    {A : Type ℓ} (P : A → Type κ) (Q : A → Type μ) (xs : List A)
    → All P xs
    → All Q xs
    → All (λ x. P x × Q x) xs
All-zip P Q [] h k = tt
All-zip P Q (x ∷ xs) (h, hs) (k, ks) = ((h, k), All-zip P Q xs hs ks)

All-units {ℓ} : {A : Type ℓ} (xs : List A) → All (λ x. Unit {0}) xs
All-units [] = tt
All-units (x ∷ xs) = (tt, All-units xs)

pub All-transposed {ℓ κ} :
    {A B : Type ℓ} (R : A → B → Type κ) (xs : List A) (ys : List B)
    → All (λ x. All (R x) ys) xs
    → All (λ y. All (λ x. R x y) xs) ys
All-transposed R [] ys h =
    All-mono (λ y. Unit {0}) (λ y. All (λ x. R x y) []) (λ _ _. tt) ys (All-units ys)
All-transposed R (x ∷ xs) ys (h, hs) =
    All-zip (R x) (λ y. All (λ x. R x y) xs) ys h (All-transposed R xs ys hs)
