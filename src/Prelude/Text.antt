-- ===== src/Prelude/Text.antt =====
-- Texts as JavaScript sees them: sequences of UTF-16 code units.
use Prim.Native.Nat.{ℕ, ◌+◌, ◌-◌, ◌/◌, ◌%◌}
use Prim.Native.Char.{Char, code}
use Prim.Native.String.{String}
use mathlib.Core.Bool.{Bool, true, false, ◌&&◌, ◌||◌}
use mathlib.Core.List.{List, [], ◌∷◌, ◌++◌}
use samohost.Prelude.Tests.{ltb, leb, eqb, if◌then◌else◌}

-- A code point outside the basic plane is a surrogate pair.
abbrev pub units : String → List ℕ
units String.[] = []
units (String.◌∷◌ c s) =
    let n = code c in
    let rest = units s in
    if ltb n 65536
    then n ∷ rest
    else (55296 + (n - 65536) / 1024) ∷ (56320 + (n - 65536) % 1024) ∷ rest

abbrev pub is_digit : ℕ → Bool
is_digit c = leb b'0' c && leb c b'9'

abbrev pub is_lower : ℕ → Bool
is_lower c = leb b'a' c && leb c b'z'

abbrev pub is_upper : ℕ → Bool
is_upper c = leb b'A' c && leb c b'Z'

-- `toLowerCase` on one code unit: exact on ASCII, and on the two other letters whose lower case has
-- an ASCII letter in it (U+212A, and U+0130, which becomes two units). Any other unit outside ASCII
-- is kept: its lower case is outside ASCII too.
abbrev pub lower_unit : ℕ → List ℕ
lower_unit c =
    if is_upper c
    then (c + 32) ∷ []
    else if eqb c 8490
    then b'k' ∷ []
    else if eqb c 304
    then b'i' ∷ 775 ∷ []
    else c ∷ []

abbrev pub to_lower_case : List ℕ → List ℕ
to_lower_case [] = []
to_lower_case (c ∷ cs) = lower_unit c ++ to_lower_case cs

-- The white space and line ends that `trim` removes.
abbrev pub is_space : ℕ → Bool
is_space c =
    (leb 9 c && leb c 13)
    || (eqb c 32
        || (eqb c 160
            || (eqb c 5760
                || ((leb 8192 c && leb c 8202)
                    || (eqb c 8232
                        || (eqb c 8233
                            || (eqb c 8239 || (eqb c 8287 || (eqb c 12288 || eqb c 65279)))))))))

trim_start : String → String
trim_start String.[] = String.[]
trim_start (String.◌∷◌ c s) =
    let rest = trim_start s in if is_space (code c) then rest else String.◌∷◌ c s

abbrev cons_unless_blank : Char → String → String
cons_unless_blank c String.[] = if is_space (code c) then String.[] else String.◌∷◌ c String.[]
cons_unless_blank c (String.◌∷◌ d s) = String.◌∷◌ c (String.◌∷◌ d s)

trim_end : String → String
trim_end String.[] = String.[]
trim_end (String.◌∷◌ c s) = cons_unless_blank c (trim_end s)

unfoldable pub trim : String → String
unfolding trim_start trim_end
trim s = trim_end (trim_start s)

abbrev starts_with : List ℕ → List ℕ → Bool
starts_with [] text = true
starts_with (p ∷ ps) [] = false
starts_with (p ∷ ps) (c ∷ cs) = eqb p c && starts_with ps cs

-- `text.includes(part)`, the part first.
unfoldable pub includes : List ℕ → List ℕ → Bool
includes part [] = starts_with part []
includes part (c ∷ cs) = starts_with part (c ∷ cs) || includes part cs

abbrev pub cons_to_first : ℕ → List (List ℕ) → List (List ℕ)
cons_to_first c [] = (c ∷ []) ∷ []
cons_to_first c (part ∷ parts) = (c ∷ part) ∷ parts

-- `text.split(separator)`, for a separator of one unit.
unfoldable pub split_on : ℕ → List ℕ → List (List ℕ)
split_on separator [] = [] ∷ []
split_on separator (c ∷ cs) =
    let rest = split_on separator cs in if eqb c separator then [] ∷ rest else cons_to_first c rest

-- The first unit and the last unit that are not blank, and what is between them.
unfoldable pub trim_units_start : List ℕ → List ℕ
trim_units_start [] = []
trim_units_start (c ∷ cs) = let rest = trim_units_start cs in if is_space c then rest else c ∷ cs

abbrev pub keep_unless_blank : ℕ → List ℕ → List ℕ
keep_unless_blank c [] = if is_space c then [] else c ∷ []
keep_unless_blank c (d ∷ ds) = c ∷ d ∷ ds

unfoldable pub trim_units_end : List ℕ → List ℕ
trim_units_end [] = []
trim_units_end (c ∷ cs) = keep_unless_blank c (trim_units_end cs)

-- `trim`, on code units.
unfoldable pub trim_units : List ℕ → List ℕ
trim_units cs = trim_units_end (trim_units_start cs)
