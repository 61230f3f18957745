-- ===== src/Preview/Names.antt =====
-- src/env/name.ts: the name of a preview environment, `fnv1a`, `branchLabel`, `envName`. Texts are
-- lists of code units. A number of 32 bits is kept below 2 ^ 32, where the source has its signed form
-- between two steps.
pub mod Laws
pub mod Dns
use samohost.Prelude.{
  ℕ, zero, suc, ◌+◌, ◌*◌, ◌-◌, ◌/◌, ◌%◌, ◌^◌, Bool, true, false, not, ◌&&◌, ◌||◌, Option, none,
  some, List, [], ◌∷◌, ◌++◌, find, take, length, eqb, ltb, leb, is_digit, is_lower, to_lower_case,
  if◌then◌else◌,
}

abbrev pub max_label : ℕ
max_label = 63

abbrev pub hash_len : ℕ
hash_len = 6

-- `^` on numbers of that many bits.
unfoldable pub xor : ℕ → ℕ → ℕ → ℕ
xor zero a b = 0
xor (suc bits) a b = (a % 2 + b % 2) % 2 + 2 * xor bits (a / 2) (b / 2)

abbrev shifted : ℕ → ℕ → ℕ
shifted h k = (h * 2 ^ k) % 2 ^ 32

abbrev hash_step : ℕ → ℕ
hash_step h =
    (h + (shifted h 1 + (shifted h 4 + (shifted h 7 + (shifted h 8 + shifted h 24))))) % 2 ^ 32

unfoldable pub hash_from : ℕ → List ℕ → ℕ
hash_from h [] = h
hash_from h (c ∷ cs) = hash_from (hash_step (xor 32 h c)) cs

abbrev pub hex_digit : ℕ → ℕ
hex_digit d = if ltb d 10 then b'0' + d else b'a' + (d - 10)

-- `toString(16).padStart(digits, "0")`
unfoldable pub hex : ℕ → ℕ → List ℕ
hex zero n = []
hex (suc digits) n = hex digits (n / 16) ++ hex_digit (n % 16) ∷ []

unfoldable pub fnv1a : List ℕ → List ℕ
fnv1a s = take hash_len (hex 8 (hash_from 2166136261 s))

abbrev pub is_plain : ℕ → Bool
is_plain c = is_lower c || is_digit c

-- `.replace(/[^a-z0-9]+/g, "-")`, in or outside of a run.
unfoldable pub dashed : Bool → List ℕ → List ℕ
dashed in_run [] = []
dashed in_run (c ∷ cs) =
    let outside = dashed false cs in
    let inside = dashed true cs in
    if is_plain c then c ∷ outside else if in_run then inside else b'-' ∷ inside

-- `.replace(/^-+/, "")`
unfoldable pub drop_first : List ℕ → List ℕ
drop_first [] = []
drop_first (c ∷ cs) = let rest = drop_first cs in if eqb c b'-' then rest else c ∷ cs

abbrev pub cons_unless_dash : ℕ → List ℕ → List ℕ
cons_unless_dash c [] = if eqb c b'-' then [] else c ∷ []
cons_unless_dash c (d ∷ ds) = c ∷ d ∷ ds

-- `.replace(/-+$/, "")`
unfoldable pub drop_last : List ℕ → List ℕ
drop_last [] = []
drop_last (c ∷ cs) = cons_unless_dash c (drop_last cs)

unfoldable pub branch_label : List ℕ → List ℕ
branch_label branch = drop_last (drop_first (dashed false (to_lower_case branch)))

abbrev pub eq_units : List ℕ → List ℕ → Bool
eq_units [] [] = true
eq_units (c ∷ cs) (d ∷ ds) = eqb c d && eq_units cs ds
eq_units _ _ = false

abbrev pub with_cut : List ℕ → List ℕ → List ℕ → List ℕ
with_cut app hash [] = app ++ b'-' ∷ hash
with_cut app hash (c ∷ cs) = app ++ b'-' ∷ c ∷ (cs ++ b'-' ∷ hash)

-- `withSuffix`
unfoldable pub with_suffix : List ℕ → List ℕ → List ℕ → List ℕ
with_suffix app hash label =
    with_cut app hash (drop_last (take (max_label - length app - 1 - 1 - hash_len) label))

abbrev pub plain : List ℕ → List ℕ → List ℕ
plain app label = app ++ b'-' ∷ label

-- Whether the name belongs to another branch.
abbrev pub is_foreign : List ℕ → Option (List ℕ × List ℕ) → Bool
is_foreign branch none = false
is_foreign branch (some (name, owner)) = not (eq_units owner branch)

abbrev pub owner_of : List (List ℕ × List ℕ) → List ℕ → Option (List ℕ × List ℕ)
owner_of existing name = find (λ e. eq_units e.0 name) existing

abbrev pub named : List ℕ → List ℕ → List (List ℕ × List ℕ) → List ℕ → List ℕ
named app branch existing [] = with_suffix app (fnv1a branch) []
named app branch existing (c ∷ cs) =
    let label = c ∷ cs in
    if ltb max_label (length (plain app label))
      || is_foreign branch (owner_of existing (plain app label))
    then with_suffix app (fnv1a branch) label
    else plain app label

-- The environments that exist are pairs of a name and its branch.
unfoldable pub env_name : List ℕ → List ℕ → List (List ℕ × List ℕ) → List ℕ
env_name app branch existing = named app branch existing (branch_label branch)
