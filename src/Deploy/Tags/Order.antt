-- ===== src/Deploy/Tags/Order.antt =====
-- The comparison of versions is a total order, up to versions that it does not tell apart.
use samohost.Prelude.{ℕ, ◌≡◌, refl, sym, List, [], ◌∷◌, arith, Bool, true, false}
use samohost.Deploy.Tags.{
  Sign, less, same, greater, then_by, compare_number, compare_text, compare_mixed,
  compare_identifier, is_numeric, number, compare_identifiers, compare_prerelease, compare_semver,
}

abbrev pub flip : Sign → Sign
flip less = greater
flip same = same
flip greater = less

-- What the signs of `a` with `b` and of `b` with `c` say of the sign of `a` with `c`.
abbrev pub Joined : Sign → Sign → Sign → Type 0
Joined less greater u = Unit
Joined greater less u = Unit
Joined same t u = u ≡ t
Joined less _ u = u ≡ less
Joined greater _ u = u ≡ greater

flip-then_by : (s t : Sign) → flip (then_by s t) ≡ then_by (flip s) (flip t)
flip-then_by less t = refl
flip-then_by same t = refl
flip-then_by greater t = refl

then_by-Joined :
    (s t u s' t' u' : Sign)
    → Joined s t u
    → Joined s' t' u'
    → Joined (then_by s s') (then_by t t') (then_by u u')
then_by-Joined s t u s' t' u' h k = ground arith

-- A comparison that turns round with its arguments, and is transitive.
pub record IsOrder {ℓ} {A : Type ℓ} (compare : A → A → Sign) : Type ℓ where
  pub turns : (a b : A) → compare b a ≡ flip (compare a b)
  pub joins : (a b c : A) → Joined (compare a b) (compare b c) (compare a c)

compare_number-IsOrder : IsOrder compare_number
compare_number-IsOrder = record { turns = λ a b. ground arith; joins = λ a b c. ground arith }

compare_text-turns : (a b : List ℕ) → compare_text b a ≡ flip (compare_text a b)
unfolding compare_text
compare_text-turns [] [] = refl
compare_text-turns [] (d ∷ ds) = refl
compare_text-turns (c ∷ cs) [] = refl
compare_text-turns (c ∷ cs) (d ∷ ds) = ground (arith, compare_text-turns cs ds)

compare_text-joins :
    (a b c : List ℕ) → Joined (compare_text a b) (compare_text b c) (compare_text a c)
unfolding compare_text
compare_text-joins [] [] c = refl
compare_text-joins [] (d ∷ ds) [] = tt
compare_text-joins [] (d ∷ ds) (e ∷ es) = ground arith
compare_text-joins (c ∷ cs) [] [] = refl
compare_text-joins (c ∷ cs) [] (e ∷ es) = tt
compare_text-joins (c ∷ cs) (d ∷ ds) [] = ground arith
compare_text-joins (c ∷ cs) (d ∷ ds) (e ∷ es) =
    then_by-Joined (compare_number c d) (compare_number d e) (compare_number c e)
      (compare_text cs ds) (compare_text ds es) (compare_text cs es)
      (compare_number-IsOrder.joins c d e) (compare_text-joins cs ds es)

compare_identifier-IsOrder : IsOrder compare_identifier
unfolding compare_identifier
compare_identifier-IsOrder = record {
  turns = λ x y. mixed_turns (is_numeric x) (is_numeric y) x y;
  joins = λ x y z. mixed_joins (is_numeric x) (is_numeric y) (is_numeric z) x y z;
}
  where
    mixed_turns : (p q : Bool) (x y : List ℕ) → compare_mixed q p y x ≡ flip (compare_mixed p q x y)
    mixed_turns true true x y = compare_number-IsOrder.turns (number x) (number y)
    mixed_turns true false x y = refl
    mixed_turns false true x y = refl
    mixed_turns false false x y = compare_text-turns x y

    mixed_joins :
        (p q r : Bool) (x y z : List ℕ)
        → Joined (compare_mixed p q x y) (compare_mixed q r y z) (compare_mixed p r x z)
    mixed_joins true true true x y z = compare_number-IsOrder.joins (number x) (number y) (number z)
    mixed_joins true true false x y z = ground arith
    mixed_joins true false true x y z = tt
    mixed_joins true false false x y z = ground arith
    mixed_joins false true true x y z = ground arith
    mixed_joins false true false x y z = tt
    mixed_joins false false true x y z = ground arith
    mixed_joins false false false x y z = compare_text-joins x y z

compare_identifiers-turns :
    (a b : List (List ℕ)) → compare_identifiers b a ≡ flip (compare_identifiers a b)
unfolding compare_identifiers
compare_identifiers-turns [] [] = refl
compare_identifiers-turns [] (y ∷ ys) = refl
compare_identifiers-turns (x ∷ xs) [] = refl
compare_identifiers-turns (x ∷ xs) (y ∷ ys) =
    rw (compare_identifier-IsOrder.turns x y, compare_identifiers-turns xs ys)
      (sym (flip-then_by (compare_identifier x y) (compare_identifiers xs ys)))

compare_identifiers-joins :
    (a b c : List (List ℕ))
    → Joined (compare_identifiers a b) (compare_identifiers b c) (compare_identifiers a c)
unfolding compare_identifiers
compare_identifiers-joins [] [] c = refl
compare_identifiers-joins [] (y ∷ ys) [] = tt
compare_identifiers-joins [] (y ∷ ys) (z ∷ zs) = ground arith
compare_identifiers-joins (x ∷ xs) [] [] = refl
compare_identifiers-joins (x ∷ xs) [] (z ∷ zs) = tt
compare_identifiers-joins (x ∷ xs) (y ∷ ys) [] = ground arith
compare_identifiers-joins (x ∷ xs) (y ∷ ys) (z ∷ zs) =
    then_by-Joined (compare_identifier x y) (compare_identifier y z) (compare_identifier x z)
      (compare_identifiers xs ys) (compare_identifiers ys zs) (compare_identifiers xs zs)
      (compare_identifier-IsOrder.joins x y z) (compare_identifiers-joins xs ys zs)

compare_prerelease-IsOrder : IsOrder compare_prerelease
unfolding compare_prerelease
compare_prerelease-IsOrder = record { turns = turned; joins = joined }
  where
    turned : (a b : List (List ℕ)) → compare_prerelease b a ≡ flip (compare_prerelease a b)
    turned [] [] = refl
    turned [] (y ∷ ys) = refl
    turned (x ∷ xs) [] = refl
    turned (x ∷ xs) (y ∷ ys) = compare_identifiers-turns (x ∷ xs) (y ∷ ys)

    joined :
        (a b c : List (List ℕ))
        → Joined (compare_prerelease a b) (compare_prerelease b c) (compare_prerelease a c)
    joined [] [] c = refl
    joined [] (y ∷ ys) [] = tt
    joined [] (y ∷ ys) (z ∷ zs) = ground arith
    joined (x ∷ xs) [] [] = refl
    joined (x ∷ xs) [] (z ∷ zs) = tt
    joined (x ∷ xs) (y ∷ ys) [] = ground arith
    joined (x ∷ xs) (y ∷ ys) (z ∷ zs) = compare_identifiers-joins (x ∷ xs) (y ∷ ys) (z ∷ zs)

-- Two comparisons by keys, the second where the first finds no difference.
module _ {ℓ κ} {A : Type ℓ} {K L : Type κ} (first : K → K → Sign) (second : L → L → Sign)
    (key : A → K) (other : A → L) (f : IsOrder first) (g : IsOrder second) where
  lexicographic-IsOrder :
      IsOrder (λ (a b : A). then_by (first (key a) (key b)) (second (other a) (other b)))
  lexicographic-IsOrder = record {
    turns = λ a b.
        rw (f.turns (key a) (key b), g.turns (other a) (other b))
          (sym (flip-then_by (first (key a) (key b)) (second (other a) (other b))));
    joins = λ a b c.
        then_by-Joined (first (key a) (key b)) (first (key b) (key c)) (first (key a) (key c))
          (second (other a) (other b)) (second (other b) (other c)) (second (other a) (other c))
          (f.joins (key a) (key b) (key c)) (g.joins (other a) (other b) (other c));
  }

-- Versions are totally ordered: swapping two versions turns the sign round, and where two comparisons
-- in a row do not point in different directions, the outer versions compare as they do.
pub compare_semver-IsOrder : IsOrder compare_semver
unfolding compare_semver
compare_semver-IsOrder =
    lexicographic-IsOrder compare_number _ (λ v. v.major) (λ v. v) compare_number-IsOrder
      (lexicographic-IsOrder compare_number _ (λ v. v.minor) (λ v. v) compare_number-IsOrder
        (lexicographic-IsOrder compare_number compare_prerelease (λ v. v.patch) (λ v. v.prerelease)
          compare_number-IsOrder compare_prerelease-IsOrder))
