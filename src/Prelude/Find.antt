-- ===== src/Prelude/Find.antt =====
-- `find`, `findIndex` and a write at an index of JavaScript's arrays, and what a replacement of the
-- first match (or an append where there is none) means for later searches.
use mathlib.Core.List.{Memᴰ}
use Prim.Native.Nat.{ℕ, zero, suc}
use mathlib.Core.Path.{◌≡◌, refl}
use mathlib.Core.Bool.{Bool, true, false}
use mathlib.Core.List.{List, [], ◌∷◌, ◌++◌}
use mathlib.Core.Option.{Option, none, some}
use native.Mathlib.Omega.{arith}
use mathlib.Core.Logic.{inl, inr}
use samohost.Prelude.Tests.{Bool-cases}

module _ {ℓ} {A : Type ℓ} where
  abbrev pub find : (A → Bool) → List A → Option A
  find p [] = none
  find p (x ∷ xs) = let rest = find p xs in elim (p x) [ true ↦ some x | false ↦ rest ]

  abbrev pub find_index : (A → Bool) → List A → Option ℕ
  find_index p [] = none
  find_index p (x ∷ xs) =
      let rest = find_index p xs in
      elim (p x) [ true ↦ some 0 | false ↦ elim rest [ none ↦ none | some i ↦ some (suc i) ] ]

  abbrev pub get_elem? : List A → ℕ → Option A
  get_elem? [] i = none
  get_elem? (x ∷ xs) zero = some x
  get_elem? (x ∷ xs) (suc i) = get_elem? xs i

  abbrev pub set : List A → ℕ → A → List A
  set [] i v = []
  set (x ∷ xs) zero v = v ∷ xs
  set (x ∷ xs) (suc i) v = x ∷ set xs i v

  -- What is stored: `v`, or `f` of the record that it replaces.
  abbrev pub stored_for : (A → A) → A → Option A → A
  stored_for f v none = v
  stored_for f v (some old) = f old

  -- Replace the first match by `f` of it, or append `v`.
  unfoldable pub replace_or_push : (A → Bool) → (A → A) → A → List A → List A
  replace_or_push p f v [] = v ∷ []
  replace_or_push p f v (x ∷ xs) =
      let rest = replace_or_push p f v xs in elim (p x) [ true ↦ f x ∷ xs | false ↦ x ∷ rest ]

  -- Write `f` of the element at the found index, or append `v`: the way the source writes it.
  abbrev pub write_or_push : Option ℕ → (A → A) → A → List A → List A
  write_or_push none f v xs = xs ++ v ∷ []
  write_or_push (some i) f v xs = elim (get_elem? xs i) [ none ↦ xs | some x ↦ set xs i (f x) ]

module _ {ℓ} {A : Type ℓ} where
  write_or_push-cons :
      (i : Option ℕ) (f : A → A) (v x : A) (xs : List A)
      → write_or_push (elim i [ none ↦ none | some k ↦ some (suc k) ]) f v (x ∷ xs)
        ≡ x ∷ write_or_push i f v xs
  write_or_push-cons none f v x xs = refl
  write_or_push-cons (some k) f v x xs = ground arith

  pub write_or_push-find_index :
      (p : A → Bool) (f : A → A) (v : A) (xs : List A)
      → write_or_push (find_index p xs) f v xs ≡ replace_or_push p f v xs
  unfolding replace_or_push
  write_or_push-find_index p f v [] = refl
  write_or_push-find_index p f v (x ∷ xs) =
      ground
        (arith, write_or_push-find_index p f v xs, write_or_push-cons (find_index p xs) f v x xs)

  -- What a search finds passes its test.
  pub find-Mem : (p : A → Bool) (xs : List A) {a : A} → find p xs ≡ some a → Memᴰ a xs
  find-Mem p [] h = absurd (ground (arith, h))
  find-Mem p (x ∷ xs) h = elim (Bool-cases (p x)) [
    | inl here ↦ Memᴰ.head (ground (arith, here, h))
    | inr later ↦ Memᴰ.tail (find-Mem p xs (ground (arith, later, h)))
  ]

  pub find-holds : (p : A → Bool) (xs : List A) {a : A} → find p xs ≡ some a → p a ≡ true
  find-holds p [] h = cc
  find-holds p (x ∷ xs) {a} h = ground (arith, find-holds p xs {a = a})

  pub get_elem?-find_index :
      (p : A → Bool) (xs : List A)
      → (elim (find_index p xs) [ none ↦ none | some i ↦ get_elem? xs i ]) ≡ find p xs
  get_elem?-find_index p [] = refl
  get_elem?-find_index p (x ∷ xs) = ground (arith, get_elem?-find_index p xs)

module _ {ℓ} {A : Type ℓ} (p : A → Bool) (f : A → A) (v : A) where
  -- A search by the same test finds the written element.
  pub find-replace_or_push_self :
      ((x : A) → p x ≡ true → p (f x) ≡ true)
      → p v ≡ true
      → (xs : List A) → find p (replace_or_push p f v xs) ≡ some (stored_for f v (find p xs))
  unfolding replace_or_push
  find-replace_or_push_self keep pv [] = rw pv
  find-replace_or_push_self keep pv (x ∷ xs) =
      ground (arith, keep x, find-replace_or_push_self keep pv xs)

  -- A search by a test that the replaced and the written elements fail sees no change.
  pub find-replace_or_push_ne :
      (q : A → Bool)
      → ((x : A) → p x ≡ true → (q x ≡ false) × (q (f x) ≡ false))
      → q v ≡ false
      → (xs : List A) → find q (replace_or_push p f v xs) ≡ find q xs
  unfolding replace_or_push
  find-replace_or_push_ne q apart qv [] = rw qv
  find-replace_or_push_ne q apart qv (x ∷ xs) =
      ground (arith, apart x, find-replace_or_push_ne q apart qv xs)
