-- ===== src/Preview/Names/Laws.antt =====
-- The length of an environment's name.
use samohost.Prelude.{
  ℕ, zero, suc, ◌+◌, ◌-◌, ◌/◌, ◌%◌, ◌≤◌, ◌≡◌, refl, ◌∙◌, ap, List, [], ◌∷◌, ◌++◌, take, length,
  length-append, length-take, arith,
}
use samohost.Preview.Names.{
  hex, hex_digit, hash_from, fnv1a, drop_last, cons_unless_dash, branch_label, with_cut,
  with_suffix, named, env_name,
}

length-hex : (digits n : ℕ) → length (hex digits n) ≡ digits
unfolding hex
length-hex zero n = refl
length-hex (suc digits) n =
    length-append (hex digits (n / 16)) (hex_digit (n % 16) ∷ [])
    ∙ omega (arith, length-hex digits (n / 16))

pub length-fnv1a : (s : List ℕ) → length (fnv1a s) ≡ 6
unfolding fnv1a
length-fnv1a s =
    omega
      (arith, length-take 6 (hex 8 (hash_from 2166136261 s)), length-hex 8 (hash_from 2166136261 s))

length-drop_last : (cs : List ℕ) → length (drop_last cs) ≤ length cs
unfolding drop_last
length-drop_last [] = omega arith
length-drop_last (c ∷ cs) = shorter (drop_last cs) (length-drop_last cs)
  where
    shorter :
        (rest : List ℕ)
        → length rest ≤ length cs
        → length (cons_unless_dash c rest) ≤ suc (length cs)
    shorter [] h = ground (arith, h)
    shorter (d ∷ ds) h = omega (arith, h)

with_cut-size :
    (app hash : List ℕ) (d : ℕ) (ds : List ℕ)
    → length (with_cut app hash (d ∷ ds))
      ≡ length app + suc (suc (length ds + length (b'-' ∷ hash)))
with_cut-size app hash d ds =
    length-append app (b'-' ∷ d ∷ (ds ++ b'-' ∷ hash))
    ∙ ap (λ n. length app + suc (suc n)) (length-append ds (b'-' ∷ hash))

length-with_cut :
    (app hash cut : List ℕ)
    → length hash ≡ 6
    → length app ≤ 56
    → length cut ≤ 63 - length app - 1 - 1 - 6
    → length (with_cut app hash cut) ≤ 63
length-with_cut app hash [] h a c = omega (arith, length-append app (b'-' ∷ hash), h, a)
length-with_cut app hash (d ∷ ds) h a c = omega (arith, with_cut-size app hash d ds, h, a, c)

length-with_suffix :
    (app branch label : List ℕ)
    → length app ≤ 56
    → length (with_suffix app (fnv1a branch) label) ≤ 63
unfolding with_suffix
length-with_suffix app branch label a =
    let room = 63 - length app - 1 - 1 - 6 in
    let cut = take room label in
    length-with_cut app (fnv1a branch) (drop_last cut) (length-fnv1a branch) a
      (omega (arith, length-drop_last cut, length-take room label))

-- The name of an environment fits into a label of the DNS where the name of its app has at most 56
-- code units.
pub length-env_name :
    (app branch : List ℕ) (existing : List (List ℕ × List ℕ))
    → length app ≤ 56
    → length (env_name app branch existing) ≤ 63
unfolding env_name
length-env_name app branch existing a = by_label (branch_label branch)
  where
    by_label : (label : List ℕ) → length (named app branch existing label) ≤ 63
    by_label [] = length-with_suffix app branch [] a
    by_label (c ∷ cs) = ground (arith, length-with_suffix app branch (c ∷ cs) a)
