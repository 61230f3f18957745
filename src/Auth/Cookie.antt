-- ===== src/Auth/Cookie.antt =====
-- packages/auth/src/cookie.ts: the headers of the session cookie. Texts are lists of code units.
pub mod RoundTrip
use samohost.Prelude.{
  ℕ, zero, suc, ◌+◌, ◌*◌, ◌/◌, ◌%◌, Bool, true, false, Option, none, some, List, [], ◌∷◌, ◌++◌,
  units, split_on, trim_units, ltb, eqb, if◌then◌else◌,
}
use samohost.Preview.Names.{eq_units}
use samohost.Auth.Session.{session_ttl_ms}

abbrev pub session_cookie_name : List ℕ
session_cookie_name = units "samo_session"

abbrev pub session_ttl_sec : ℕ
session_ttl_sec = session_ttl_ms / 1000

-- A number in decimal, of at most that many digits.
unfoldable pub decimal : ℕ → ℕ → List ℕ
decimal zero n = []
decimal (suc digits) n =
    let front = decimal digits (n / 10) in
    if ltb n 10 then (b'0' + n) ∷ [] else front ++ (b'0' + n % 10) ∷ []

-- `parts.join("; ")`
unfoldable pub join_parts : List (List ℕ) → List ℕ
join_parts [] = []
join_parts (part ∷ []) = part
join_parts (part ∷ next ∷ rest) = part ++ (b';' ∷ b' ' ∷ join_parts (next ∷ rest))

abbrev pub secure_part : Bool → List (List ℕ)
secure_part true = []
secure_part false = units "Secure" ∷ []

abbrev pub cookie_parts : List ℕ → List ℕ → Bool → List (List ℕ)
cookie_parts value max_age insecure =
    (session_cookie_name ++ b'=' ∷ value)
    ∷ (units "Max-Age=" ++ max_age)
    ∷ units "Path=/"
    ∷ units "HttpOnly"
    ∷ units "SameSite=Lax"
    ∷ secure_part insecure

unfoldable pub build_set_cookie_header : List ℕ → Bool → List ℕ
build_set_cookie_header raw insecure =
    join_parts (cookie_parts raw (decimal 20 session_ttl_sec) insecure)

unfoldable pub clear_cookie_header : Bool → List ℕ
clear_cookie_header insecure = join_parts (cookie_parts [] (units "0") insecure)

-- What stands before the first equals sign, and after it.
unfoldable pub name_of : List ℕ → List ℕ
name_of [] = []
name_of (c ∷ cs) = let rest = name_of cs in if eqb c b'=' then [] else c ∷ rest

unfoldable pub value_of : List ℕ → List ℕ
value_of [] = []
value_of (c ∷ cs) = let rest = value_of cs in if eqb c b'=' then cs else rest

abbrev pub or_null : List ℕ → Option (List ℕ)
or_null [] = none
or_null (c ∷ cs) = some (c ∷ cs)

unfoldable pub token_in : List (List ℕ) → Option (List ℕ)
token_in [] = none
token_in (part ∷ rest) =
    let later = token_in rest in
    if eq_units (name_of (trim_units part)) session_cookie_name
    then or_null (value_of (trim_units part))
    else later

-- A text without a cookie of the name, the empty one too, gives null.
unfoldable pub parse_cookie_token : List ℕ → Option (List ℕ)
parse_cookie_token [] = none
parse_cookie_token (c ∷ cs) = token_in (split_on b';' (c ∷ cs))
