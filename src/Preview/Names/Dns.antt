-- ===== src/Preview/Names/Dns.antt =====
-- The characters of an environment's name.
use samohost.Prelude.{
  ℕ, zero, suc, ◌-◌, ◌/◌, ◌%◌, ◌<◌, ◌≡◌, refl, ◌∙◌, ◌⊎◌, inl, inr, Bool, true, false, ◌&&◌, ◌||◌,
  List, [], ◌∷◌, ◌++◌, take, length, all, eqb, ltb, to_lower_case, arith, Bool-cases,
}
use samohost.Preview.Names.{
  hex, hex_digit, hash_from, fnv1a, is_plain, dashed, drop_first, drop_last, cons_unless_dash,
  branch_label, with_cut, with_suffix, plain, named, env_name, is_foreign, owner_of, max_label,
}
use samohost.Preview.Names.Laws.{length-fnv1a}

abbrev pub is_name_char : ℕ → Bool
is_name_char c = is_plain c || eqb c b'-'

abbrev pub starts_plain : List ℕ → Bool
starts_plain [] = false
starts_plain (c ∷ cs) = is_plain c

abbrev pub ends_plain : List ℕ → Bool
ends_plain [] = false
ends_plain (c ∷ []) = is_plain c
ends_plain (c ∷ d ∷ ds) = ends_plain (d ∷ ds)

-- Lower-case letters, digits and dashes, and neither the first nor the last is a dash.
abbrev pub IsDnsName : List ℕ → Type 0
IsDnsName cs = (all is_name_char cs ≡ true) × (starts_plain cs ≡ true) × (ends_plain cs ≡ true)

module _ (p : ℕ → Bool) where
  all-append : (xs ys : List ℕ) → all p (xs ++ ys) ≡ (all p xs && all p ys)
  all-append [] ys = refl
  all-append (x ∷ xs) ys = ground (arith, all-append xs ys)

  all-take : (n : ℕ) (xs : List ℕ) → all p xs ≡ true → all p (take n xs) ≡ true
  all-take zero xs h = refl
  all-take (suc n) [] h = refl
  all-take (suc n) (x ∷ xs) h = ground (arith, h, all-take n xs)

ends_plain-append :
    (xs : List ℕ) (c : ℕ) (ys : List ℕ) → ends_plain (xs ++ c ∷ ys) ≡ ends_plain (c ∷ ys)
ends_plain-append [] c ys = refl
ends_plain-append (x ∷ []) c ys = refl
ends_plain-append (x ∷ y ∷ xs) c ys = ends_plain-append (y ∷ xs) c ys

hex_digit-plain : (d : ℕ) → d < 16 → is_plain (hex_digit d) ≡ true
hex_digit-plain d h = ground (arith, h)

all-hex : (digits n : ℕ) → all is_plain (hex digits n) ≡ true
unfolding hex
all-hex zero n = refl
all-hex (suc digits) n =
    all-append is_plain (hex digits (n / 16)) (hex_digit (n % 16) ∷ [])
    ∙ ground (arith, all-hex digits (n / 16), hex_digit-plain (n % 16) (omega arith))

all-fnv1a : (s : List ℕ) → all is_plain (fnv1a s) ≡ true
unfolding fnv1a
all-fnv1a s =
    all-take is_plain 6 (hex 8 (hash_from 2166136261 s)) (all-hex 8 (hash_from 2166136261 s))

all_name_char : (cs : List ℕ) → all is_plain cs ≡ true → all is_name_char cs ≡ true
all_name_char [] h = refl
all_name_char (c ∷ cs) h = ground (arith, h, all_name_char cs)

ends_plain-all : (c : ℕ) (cs : List ℕ) → all is_plain (c ∷ cs) ≡ true → ends_plain (c ∷ cs) ≡ true
ends_plain-all c [] h = ground (arith, h)
ends_plain-all c (d ∷ ds) h = ends_plain-all d ds (ground (arith, h))

all-dashed : (in_run : Bool) (cs : List ℕ) → all is_name_char (dashed in_run cs) ≡ true
unfolding dashed
all-dashed in_run [] = refl
all-dashed in_run (c ∷ cs) = ground (arith, all-dashed false cs, all-dashed true cs)

all-drop_first :
    (cs : List ℕ) → all is_name_char cs ≡ true → all is_name_char (drop_first cs) ≡ true
unfolding drop_first
all-drop_first [] h = refl
all-drop_first (c ∷ cs) h = ground (arith, h, all-drop_first cs)

-- Nothing, or a text of name characters that ends well.
abbrev EndsWell : List ℕ → Type 0
EndsWell cs = (cs ≡ []) ⊎ ((all is_name_char cs ≡ true) × (ends_plain cs ≡ true))

EndsWell-cons :
    (c : ℕ) (rest : List ℕ)
    → is_name_char c ≡ true
    → EndsWell rest
    → EndsWell (cons_unless_dash c rest)
EndsWell-cons c [] h w = elim (Bool-cases (eqb c b'-')) [
  | inl dash ↦ rw dash (inl refl)
  | inr other ↦ rw other (inr (ground (arith, h), ground (arith, h, other)))
]
EndsWell-cons c (d ∷ ds) h (inl empty) = absurd (ground (arith, empty))
EndsWell-cons c (d ∷ ds) h (inr (chars, ends)) = inr (ground (arith, h, chars), ends)

EndsWell-drop_last : (cs : List ℕ) → all is_name_char cs ≡ true → EndsWell (drop_last cs)
unfolding drop_last
EndsWell-drop_last [] h = inl refl
EndsWell-drop_last (c ∷ cs) h =
    EndsWell-cons c (drop_last cs) (ground (arith, h)) (EndsWell-drop_last cs (ground (arith, h)))

EndsWell-branch_label : (branch : List ℕ) → EndsWell (branch_label branch)
unfolding branch_label
EndsWell-branch_label branch =
    EndsWell-drop_last _ (
      all-drop_first (dashed false (to_lower_case branch))
        (all-dashed false (to_lower_case branch)))

starts_plain-append :
    (app rest : List ℕ) → starts_plain app ≡ true → starts_plain (app ++ rest) ≡ true
starts_plain-append [] rest h = absurd (ground (arith, h))
starts_plain-append (a ∷ app) rest h = h

-- The name of an app and a part that ends well, with a dash between.
IsDnsName-joined :
    (app part : List ℕ)
    → IsDnsName app
    → all is_name_char part ≡ true
    → ends_plain part ≡ true
    → IsDnsName (app ++ b'-' ∷ part)
IsDnsName-joined app [] h chars ends = absurd (ground (arith, ends))
IsDnsName-joined app (c ∷ cs) (app_chars, app_starts, app_ends) chars ends = (
  all-append is_name_char app (b'-' ∷ c ∷ cs) ∙ ground (arith, app_chars, chars),
  starts_plain-append app (b'-' ∷ c ∷ cs) app_starts,
  ends_plain-append app b'-' (c ∷ cs) ∙ ends,
)

-- The hash ends well.
hash_part :
    (hash : List ℕ)
    → length hash ≡ 6
    → all is_plain hash ≡ true
    → (all is_name_char hash ≡ true) × (ends_plain hash ≡ true)
hash_part [] l h = absurd (omega (arith, l))
hash_part (c ∷ cs) l h = (all_name_char (c ∷ cs) h, ends_plain-all c cs h)

IsDnsName-with_cut :
    (app hash cut : List ℕ)
    → IsDnsName app
    → (all is_name_char hash ≡ true) × (ends_plain hash ≡ true)
    → EndsWell cut
    → IsDnsName (with_cut app hash cut)
IsDnsName-with_cut app hash [] h (chars, ends) w = IsDnsName-joined app hash h chars ends
IsDnsName-with_cut app hash (c ∷ cs) h (chars, ends) (inl empty) = absurd (ground (arith, empty))
IsDnsName-with_cut app [] (c ∷ cs) h (chars, ends) (inr w) = absurd (ground (arith, ends))
IsDnsName-with_cut app (x ∷ hash) (c ∷ cs) h (chars, ends) (inr (cut_chars, cut_ends)) =
    IsDnsName-joined app (c ∷ (cs ++ b'-' ∷ x ∷ hash)) h
      (all-append is_name_char (c ∷ cs) (b'-' ∷ x ∷ hash) ∙ ground (arith, cut_chars, chars))
      (ends_plain-append (c ∷ cs) b'-' (x ∷ hash) ∙ ends)

IsDnsName-with_suffix :
    (app branch label : List ℕ)
    → IsDnsName app
    → all is_name_char label ≡ true
    → IsDnsName (with_suffix app (fnv1a branch) label)
unfolding with_suffix
IsDnsName-with_suffix app branch label h chars =
    let room = 63 - length app - 1 - 1 - 6 in
    IsDnsName-with_cut app (fnv1a branch) (drop_last (take room label)) h
      (hash_part (fnv1a branch) (length-fnv1a branch) (all-fnv1a branch))
      (EndsWell-drop_last (take room label) (all-take is_name_char room label chars))

-- If the name of the app consists of lower-case letters, digits and dashes and neither starts nor ends
-- with a dash, then so does the name of an environment, for every name of a branch.
pub env_name-IsDnsName :
    (app branch : List ℕ) (existing : List (List ℕ × List ℕ))
    → IsDnsName app
    → IsDnsName (env_name app branch existing)
unfolding env_name
env_name-IsDnsName app branch existing h =
    by_label (branch_label branch) (EndsWell-branch_label branch)
  where
    by_label : (label : List ℕ) → EndsWell label → IsDnsName (named app branch existing label)
    by_label [] w = IsDnsName-with_suffix app branch [] h refl
    by_label (c ∷ cs) (inl empty) = absurd (ground (arith, empty))
    by_label (c ∷ cs) (inr (chars, ends)) =
        elim (Bool-cases (
          ltb max_label (length (plain app (c ∷ cs)))
          || is_foreign branch (owner_of existing (plain app (c ∷ cs))))) [
            | inl suffixed ↦ rw suffixed (IsDnsName-with_suffix app branch (c ∷ cs) h chars)
            | inr free ↦ rw free (IsDnsName-joined app (c ∷ cs) h chars ends)
          ]
