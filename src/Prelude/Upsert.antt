-- ===== src/Prelude/Upsert.antt =====
-- The keyed lists of the stores: insert or replace by identity, removal by identity, and the laws
-- that every store inherits.
use Prim.Native.Nat.{ℕ}
use mathlib.Core.Logic.{inl, inr}
use mathlib.Core.Path.{◌≡◌, refl, ◌∙◌, sym, subst}
use mathlib.Core.Bool.{Bool, true, false, not}
use mathlib.Core.List.{List, [], ◌∷◌, ◌++◌}
use mathlib.Core.Option.{Option, none, some}
use native.Mathlib.Omega.{arith}
use samohost.Prelude.Tests.{eqb, Bool-cases}
use samohost.Prelude.Lists.{length, filter, all, All, length-filter, All-filter, All-append}
use samohost.Prelude.Find.{
  find, find_index, get_elem?, set, replace_or_push, write_or_push-find_index, get_elem?-find_index,
  stored_for,
}

module _ {ℓ} {A : Type ℓ} where
  abbrev upsert_at : (A → A) → A → List A → Option ℕ → A × List A
  upsert_at f v xs none = (v, xs ++ v ∷ [])
  upsert_at f v xs (some i) = elim (get_elem? xs i) [
    | none ↦ (v, xs)
    | some old ↦ (f old, set xs i (f old))
  ]

  -- The stored record, and the list with it: `findIndex`, then a write at the index or a `push`.
  unfoldable pub upsert_by : (A → Bool) → (A → A) → A → List A → A × List A
  upsert_by p f v xs = upsert_at f v xs (find_index p xs)

  -- The removed flag, and what is kept.
  unfoldable pub remove_by : (A → Bool) → List A → Bool × List A
  remove_by p xs =
      let kept = filter (λ x. not (p x)) xs in (not (eqb (length kept) (length xs)), kept)

all_replaced {ℓ} :
    {A : Type ℓ} (p : A → Bool) (f : A → A) (v : A) (xs : List A) (q : A → Bool)
    → ((x : A) → q (f x) ≡ true)
    → q v ≡ true
    → all q xs ≡ true
    → all q (replace_or_push p f v xs) ≡ true
unfolding replace_or_push
all_replaced p f v [] q qf qv h = rw qv
all_replaced p f v (x ∷ xs) q qf qv h = ground (arith, qf x, all_replaced p f v xs q qf qv)

module _ {ℓ} {A : Type ℓ} (p : A → Bool) (f : A → A) (v : A) (xs : List A) where
  pub upsert_by-list : (upsert_by p f v xs).1 ≡ replace_or_push p f v xs
  unfolding upsert_by
  upsert_by-list = ground (arith, write_or_push-find_index p f v xs)

  pub upsert_by-stored : (upsert_by p f v xs).0 ≡ stored_for f v (find p xs)
  unfolding upsert_by
  upsert_by-stored = ground (arith, get_elem?-find_index p xs)

  -- A test that holds of what is written holds of all that the list then holds.
  pub all-replace_or_push :
      (q : A → Bool)
      → ((x : A) → q (f x) ≡ true)
      → q v ≡ true
      → all q xs ≡ true
      → all q (replace_or_push p f v xs) ≡ true
  all-replace_or_push q qf qv h = all_replaced p f v xs q qf qv h

module _ {ℓ} {A : Type ℓ} (p : A → Bool) where
  pub find-remove_by_self : (xs : List A) → find p (remove_by p xs).1 ≡ none
  unfolding remove_by
  find-remove_by_self [] = refl
  find-remove_by_self (x ∷ xs) = ground (arith, find-remove_by_self xs)

  pub find-remove_by_ne :
      (q : A → Bool)
      → ((x : A) → p x ≡ true → q x ≡ false)
      → (xs : List A) → find q (remove_by p xs).1 ≡ find q xs
  unfolding remove_by
  find-remove_by_ne q apart [] = refl
  find-remove_by_ne q apart (x ∷ xs) = ground (arith, apart x, find-remove_by_ne q apart xs)

  -- The flag says whether there was anything to remove.
  pub remove_by-flag :
      (xs : List A) → (remove_by p xs).0 ≡ (elim (find p xs) [ none ↦ false | some _ ↦ true ])
  unfolding remove_by
  remove_by-flag [] = ground arith
  remove_by-flag (x ∷ xs) =
      ground (arith, remove_by-flag xs, length-filter (λ (y : A). not (p y)) xs)

module _ {ℓ} {A : Type ℓ} (same : A → A → Bool) where
  -- No two records have the same identity.
  abbrev pub Distinct : List A → Type 0
  Distinct [] = Unit
  Distinct (x ∷ xs) = All (λ y. same x y ≡ false) xs × Distinct xs

  module _ (symmetric : (x y : A) → same x y ≡ same y x) (f : A → A) (v : A)
      (keeps : (x y : A) → same v x ≡ true → same (f x) y ≡ same x y) where
    apart-replace_or_push :
        (w : A) (xs : List A)
        → same v w ≡ false
        → All (λ y. same w y ≡ false) xs
        → All (λ y. same w y ≡ false) (replace_or_push (same v) f v xs)
    unfolding replace_or_push
    apart-replace_or_push w [] h a = (symmetric w v ∙ h, tt)
    apart-replace_or_push w (x ∷ xs) h (a, rest) = elim (Bool-cases (same v x)) [
      | inl e ↦ rw (e, All) (symmetric w (f x) ∙ keeps x w e ∙ symmetric x w ∙ a, rest)
      | inr e ↦ rw (e, All) (a, apart-replace_or_push w xs h rest)
    ]

    same_as_replaced :
        (x : A) (xs : List A)
        → same v x ≡ true
        → All (λ y. same x y ≡ false) xs
        → All (λ y. same (f x) y ≡ false) xs
    same_as_replaced x [] e a = tt
    same_as_replaced x (y ∷ xs) e (a, rest) = (keeps x y e ∙ a, same_as_replaced x xs e rest)

    pub Distinct-replace_or_push :
        (xs : List A) → Distinct xs → Distinct (replace_or_push (same v) f v xs)
    unfolding replace_or_push
    Distinct-replace_or_push [] d = (tt, tt)
    Distinct-replace_or_push (x ∷ xs) (a, d) = elim (Bool-cases (same v x)) [
      | inl e ↦ rw (e, Distinct) (same_as_replaced x xs e a, d)
      | inr e ↦ rw (e, Distinct) (apart-replace_or_push x xs e a, Distinct-replace_or_push xs d)
    ]

  pub Distinct-remove_by : (p : A → Bool) (xs : List A) → Distinct xs → Distinct (remove_by p xs).1
  unfolding remove_by
  Distinct-remove_by p [] d = tt
  Distinct-remove_by p (x ∷ xs) (a, d) = elim (Bool-cases (p x)) [
    | inl e ↦ rw (e, Distinct) (Distinct-remove_by p xs d)
    | inr e ↦ rw (e, Distinct) (All-filter _ (λ y. not (p y)) xs a, Distinct-remove_by p xs d)
  ]

module _ {ℓ} {A : Type ℓ} (s : A → A → Bool) where
  pub Distinct-snoc :
      (xs : List A) (v : A)
      → Distinct s xs
      → All (λ y. s y v ≡ false) xs
      → Distinct s (xs ++ v ∷ [])
  Distinct-snoc [] v d a = (tt, tt)
  Distinct-snoc (x ∷ xs) v (h, d) (a, rest) =
      (All-append (λ y. s x y ≡ false) xs (v ∷ []) h (a, tt), Distinct-snoc xs v d rest)

  module _ (p : A → Bool) (f : A → A) (v : A) where
    pub replace_or_push-absent :
        (xs : List A) → find p xs ≡ none → replace_or_push p f v xs ≡ xs ++ v ∷ []
    unfolding replace_or_push
    replace_or_push-absent [] h = refl
    replace_or_push-absent (x ∷ xs) h = ground (arith, h, replace_or_push-absent xs)

    All-replaced :
        (w : A) (xs : List A) {old : A}
        → find p xs ≡ some old
        → s w (f old) ≡ s w old
        → All (λ y. s w y ≡ false) xs
        → All (λ y. s w y ≡ false) (replace_or_push p f v xs)
    unfolding replace_or_push
    All-replaced w [] h same a = absurd (ground (arith, h))
    All-replaced w (x ∷ xs) {old} h same (a, rest) = elim (Bool-cases (p x)) [
      | inl e ↦ rw (e, All) (ground (arith, e, h, same, a), rest)
      | inr e ↦ rw (e, All) (a, All-replaced w xs {old = old} (ground (arith, e, h)) same rest)
    ]

    All-same :
        (old new : A) (xs : List A)
        → ((y : A) → s new y ≡ s old y)
        → All (λ y. s old y ≡ false) xs
        → All (λ y. s new y ≡ false) xs
    All-same old new [] same a = tt
    All-same old new (x ∷ xs) same (a, rest) = (same x ∙ a, All-same old new xs same rest)

    -- A replacement that relates to the others as the replaced record did.
    pub Distinct-replaced :
        (symmetric : (x y : A) → s x y ≡ s y x) (xs : List A) {old : A}
        → find p xs ≡ some old
        → ((y : A) → s (f old) y ≡ s old y)
        → Distinct s xs
        → Distinct s (replace_or_push p f v xs)
    unfolding replace_or_push
    Distinct-replaced symmetric [] h same d = absurd (ground (arith, h))
    Distinct-replaced symmetric (x ∷ xs) {old} h same (a, d) = elim (Bool-cases (p x)) [
      | inl e ↦
          let here : x ≡ old = ground (arith, e, h) in
          rw (e, Distinct)
            (
              All-same x (f x) xs (subst (λ (z : A). (y : A) → s (f z) y ≡ s z y) (sym here) same)
                  a,
              d,
            )
      | inr e ↦
          rw (e, Distinct)
            (
              All-replaced x xs (ground (arith, e, h))
                  (symmetric x (f old) ∙ same x ∙ symmetric old x) a,
              Distinct-replaced symmetric xs (ground (arith, e, h)) same d,
            )
    ]
