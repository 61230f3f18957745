-- ===== src/Deploy/Tags.antt =====
-- src/commands/app.ts: release tags by semantic version, `parseSemver`, `compareSemver`,
-- `compareReleaseTags`, `selectLatestTag`, `makeResolveLatestTag`. The test against the glob is a
-- parameter. A number is exact here, and a JavaScript number is so below 2 ^ 53.
pub mod Order
pub mod Latest
use samohost.Prelude.{
  ℕ, ◌+◌, ◌*◌, ◌-◌, String, Bool, true, false, not, ◌==◌, ◌&&◌, ◌||◌, Option, none, some, List, [],
  ◌∷◌, any, all, units, eqb, ltb, leb, is_digit, is_lower, is_upper, is_space, trim, if◌then◌else◌,
}
use samohost.Deploy.ReleaseTag.{is_date_release_tag}

pub record Semver : Type 0 where
  pub major : ℕ
  pub minor : ℕ
  pub patch : ℕ
  pub prerelease : List (List ℕ)
  pub raw : String

-- The sign of the number that a comparison returns.
pub data Sign : Type 0 where
  less same greater : Sign

abbrev pub then_by : Sign → Sign → Sign
then_by less next = less
then_by same next = next
then_by greater next = greater

-- The longest prefix whose items pass the test, and the rest.
abbrev pub span : (ℕ → Bool) → List ℕ → List ℕ × List ℕ
span p [] = ([], [])
span p (c ∷ cs) = let (run, rest) = span p cs in if p c then (c ∷ run, rest) else ([], c ∷ cs)

abbrev number_from : ℕ → List ℕ → ℕ
number_from acc [] = acc
number_from acc (d ∷ ds) = number_from (acc * 10 + (d - b'0')) ds

-- `Number` of a run of digits.
unfoldable pub number : List ℕ → ℕ
number ds = number_from 0 ds

abbrev is_identifier_char : ℕ → Bool
is_identifier_char c = is_digit c || (is_lower c || (is_upper c || (eqb c b'.' || eqb c b'-')))

abbrev number_or_back : List ℕ → List ℕ × List ℕ → ℕ × List ℕ
number_or_back back ([], rest) = (0, back)
number_or_back back (d ∷ ds, rest) = (number (d ∷ ds), rest)

-- `(?:\.(\d+))?`, with 0 where it is absent.
abbrev dotted_number : List ℕ → ℕ × List ℕ
dotted_number [] = (0, [])
dotted_number (c ∷ cs) =
    if eqb c b'.' then number_or_back (c ∷ cs) (span is_digit cs) else (0, c ∷ cs)

abbrev push_first : ℕ → List (List ℕ) → List (List ℕ)
push_first c [] = (c ∷ []) ∷ []
push_first c (part ∷ parts) = (c ∷ part) ∷ parts

-- `split(".")`.
abbrev pub split_dots : List ℕ → List (List ℕ)
split_dots [] = [] ∷ []
split_dots (c ∷ cs) =
    let parts = split_dots cs in if eqb c b'.' then [] ∷ parts else push_first c parts

abbrev identifiers_or_back : List ℕ → List ℕ × List ℕ → List (List ℕ) × List ℕ
identifiers_or_back back ([], rest) = ([], back)
identifiers_or_back back (c ∷ cs, rest) = (split_dots (c ∷ cs), rest)

-- `(?:-([0-9A-Za-z.-]+))?`
abbrev prerelease_part : List ℕ → List (List ℕ) × List ℕ
prerelease_part [] = ([], [])
prerelease_part (c ∷ cs) =
    if eqb c b'-' then identifiers_or_back (c ∷ cs) (span is_identifier_char cs) else ([], c ∷ cs)

abbrev is_whole_run : List ℕ × List ℕ → Bool
is_whole_run (c ∷ cs, []) = true
is_whole_run (_, _) = false

-- `(?:\+[0-9A-Za-z.-]+)?$`
abbrev ends_well : List ℕ → Bool
ends_well [] = true
ends_well (c ∷ cs) = eqb c b'+' && is_whole_run (span is_identifier_char cs)

abbrev pub without_v : List ℕ → List ℕ
without_v [] = []
without_v (c ∷ cs) = if eqb c b'v' then cs else c ∷ cs

abbrev pub parse_rest : String → ℕ → List ℕ → Option Semver
parse_rest raw major text =
    let (minor, after_minor) = dotted_number text in
    let (patch, after_patch) = dotted_number after_minor in
    let (prerelease, rest) = prerelease_part after_patch in
    if ends_well rest
    then some
        (record { major = major; minor = minor; patch = patch; prerelease = prerelease; raw = raw })
    else none

abbrev pub parse_major : String → List ℕ × List ℕ → Option Semver
parse_major raw ([], rest) = none
parse_major raw (d ∷ ds, rest) = parse_rest raw (number (d ∷ ds)) rest

unfoldable pub parse_semver : String → Option Semver
parse_semver name = parse_major name (span is_digit (without_v (units name)))

abbrev pub compare_number : ℕ → ℕ → Sign
compare_number a b = if ltb a b then less else if ltb b a then greater else same

-- `<` on texts: the first code unit that differs decides, and a prefix is less.
unfoldable pub compare_text : List ℕ → List ℕ → Sign
compare_text [] [] = same
compare_text [] (d ∷ ds) = less
compare_text (c ∷ cs) [] = greater
compare_text (c ∷ cs) (d ∷ ds) = then_by (compare_number c d) (compare_text cs ds)

-- `/^\d+$/`
abbrev pub is_numeric : List ℕ → Bool
is_numeric [] = false
is_numeric (c ∷ cs) = is_digit c && all is_digit cs

abbrev compare_mixed : Bool → Bool → List ℕ → List ℕ → Sign
compare_mixed true true x y = compare_number (number x) (number y)
compare_mixed true false x y = less
compare_mixed false true x y = greater
compare_mixed false false x y = compare_text x y

unfoldable pub compare_identifier : List ℕ → List ℕ → Sign
compare_identifier x y = compare_mixed (is_numeric x) (is_numeric y) x y

-- The loop over the identifiers and the difference of the lengths after it.
unfoldable pub compare_identifiers : List (List ℕ) → List (List ℕ) → Sign
compare_identifiers [] [] = same
compare_identifiers [] (y ∷ ys) = less
compare_identifiers (x ∷ xs) [] = greater
compare_identifiers (x ∷ xs) (y ∷ ys) = then_by (compare_identifier x y) (compare_identifiers xs ys)

unfoldable pub compare_prerelease : List (List ℕ) → List (List ℕ) → Sign
compare_prerelease [] [] = same
compare_prerelease [] (y ∷ ys) = greater
compare_prerelease (x ∷ xs) [] = less
compare_prerelease (x ∷ xs) (y ∷ ys) = compare_identifiers (x ∷ xs) (y ∷ ys)

unfoldable pub compare_semver : Semver → Semver → Sign
compare_semver a b = then_by (compare_number a.major b.major) (
    then_by (compare_number a.minor b.minor)
      (then_by (compare_number a.patch b.patch) (compare_prerelease a.prerelease b.prerelease)))

abbrev compare_parsed : Option Semver → Option Semver → Option Sign
compare_parsed (some a) (some b) = some (compare_semver a b)
compare_parsed _ _ = none

unfoldable pub compare_release_tags : String → String → Option Sign
compare_release_tags a b = compare_parsed (parse_semver a) (parse_semver b)

abbrev pub is_greater : Sign → Bool
is_greater greater = true
is_greater less = false
is_greater same = false

-- The pattern without its `[...]` classes: a `[` with no `]` after it stays.
unfoldable pub outside_classes : Option (List ℕ) → List ℕ → List ℕ
outside_classes none [] = []
outside_classes (some held) [] = held
outside_classes none (c ∷ cs) =
    let opened = outside_classes (some (c ∷ cs)) cs in
    let rest = outside_classes none cs in if eqb c b'[' then opened else c ∷ rest
outside_classes (some held) (c ∷ cs) =
    let closed = outside_classes none cs in
    let rest = outside_classes (some held) cs in if eqb c b']' then closed else rest

unfoldable pub allow_prerelease : String → Bool
allow_prerelease pattern = any (λ c. eqb c b'-') (outside_classes none (units pattern))

abbrev is_release : Semver → Bool
is_release v = elim v.prerelease [ [] ↦ true | _ ∷ _ ↦ false ]

module _ (tag_matches : String → String → Bool) (pattern : String) (is_date : Bool) where
  abbrev pub kept : Option Semver → Option Semver
  kept none = none
  kept (some v) = if allow_prerelease pattern || is_release v then some v else none

  -- A name that takes part in the choice, parsed.
  unfoldable pub candidate : String → Option Semver
  candidate name =
      if tag_matches pattern name && (not is_date || is_date_release_tag name)
      then kept (parse_semver name)
      else none

  abbrev pub better : Option Semver → Option Semver → Option Semver
  better best none = best
  better none (some v) = some v
  better (some b) (some v) = if is_greater (compare_semver v b) then some v else some b

  -- The loop.
  unfoldable pub latest_from : Option Semver → List String → Option Semver
  latest_from best [] = best
  latest_from best (name ∷ names) = latest_from (better best (candidate name)) names

  abbrev pub raw_of : Option Semver → Option String
  raw_of none = none
  raw_of (some v) = some v.raw

  unfoldable pub select_latest_tag : List String → Option String
  select_latest_tag names = raw_of (latest_from none names)
