-- ===== src/Auth/Cookie/RoundTrip.antt =====
-- The token of the session cookie comes back from the headers that carry it.
use samohost.Prelude.{
  ℕ, ◌≡◌, ◌∙◌, refl, ap, Bool, true, false, ◌||◌, Option, none, some, List, [], ◌∷◌, ◌++◌, All,
  split_on, trim_units, trim_units_start, trim_units_end, keep_unless_blank, is_space, is_digit,
  is_lower, eqb, arith, if◌then◌else◌,
}
use samohost.Preview.Names.{eq_units}
use samohost.Auth.Cookie.{
  session_cookie_name, join_parts, build_set_cookie_header, clear_cookie_header, name_of, value_of,
  or_null, token_in, parse_cookie_token,
}

-- Letters and digits, at least one: hexadecimal texts among them.
abbrev pub IsToken : List ℕ → Type 0
IsToken [] = ⊥
IsToken (c ∷ cs) = All (λ d. is_digit d || is_lower d ≡ true) (c ∷ cs)

abbrev pub LacksSemicolon : List ℕ → Type 0
LacksSemicolon = All (λ c. eqb c b';' ≡ false)

split_on-first :
    (xs rest : List ℕ)
    → LacksSemicolon xs
    → split_on b';' (xs ++ b';' ∷ rest) ≡ xs ∷ split_on b';' rest
unfolding split_on
split_on-first [] rest h = refl
split_on-first (x ∷ xs) rest (h, hs) = rw (h, split_on-first xs rest hs) refl

split_on-whole : (xs : List ℕ) → LacksSemicolon xs → split_on b';' xs ≡ xs ∷ []
unfolding split_on
split_on-whole [] h = refl
split_on-whole (x ∷ xs) (h, hs) = rw (h, split_on-whole xs hs) refl

trim_units_end-solid : (xs : List ℕ) → All (λ c. is_space c ≡ false) xs → trim_units_end xs ≡ xs
unfolding trim_units_end
trim_units_end-solid [] h = refl
trim_units_end-solid (x ∷ []) (h, _) = rw h refl
trim_units_end-solid (x ∷ y ∷ ys) (h, hs) =
    ap (keep_unless_blank x) (trim_units_end-solid (y ∷ ys) hs)

is_space-plain : (c : ℕ) → (is_digit c || is_lower c) ≡ true → is_space c ≡ false
is_space-plain c h = ground (arith, h)

abbrev Plain : List ℕ → Type 0
Plain = All (λ d. (is_digit d || is_lower d) ≡ true)

solid : (cs : List ℕ) → Plain cs → All (λ c. is_space c ≡ false) cs
solid [] h = tt
solid (c ∷ cs) (h, hs) = (is_space-plain c h, solid cs hs)

without_semicolon : (cs : List ℕ) → Plain cs → LacksSemicolon cs
without_semicolon [] h = tt
without_semicolon (c ∷ cs) (h, hs) = (ground (arith, h), without_semicolon cs hs)

IsToken-Plain : (raw : List ℕ) → IsToken raw → Plain raw
IsToken-Plain [] h = absurd h
IsToken-Plain (c ∷ cs) h = h

or_null-token : (raw : List ℕ) → IsToken raw → or_null raw ≡ some raw
or_null-token [] h = absurd h
or_null-token (c ∷ cs) h = refl

-- The pair of the session cookie.
abbrev pub pair : List ℕ → List ℕ
pair value = session_cookie_name ++ b'=' ∷ value

pair-solid : (value : List ℕ) → Plain value → All (λ c. is_space c ≡ false) (pair value)
pair-solid value h = (
  refl,
  (
    refl,
    (
      refl,
      (refl, (refl, (refl, (refl, (refl, (refl, (refl, (refl, (refl, (refl, solid value h)))))))))),
    ),
  ),
)

pair-LacksSemicolon : (value : List ℕ) → Plain value → LacksSemicolon (pair value)
pair-LacksSemicolon value h = (
  refl,
  (
    refl,
    (
      refl,
      (
        refl,
        (
          refl,
          (refl, (refl, (refl, (refl, (refl, (refl, (refl, (refl, without_semicolon value h)))))))),
        ),
      ),
    ),
  ),
)

trim_units-pair :
    (value : List ℕ)
    → Plain value
    → (trim_units (pair value) ≡ pair value) × (trim_units (b' ' ∷ pair value) ≡ pair value)
unfolding trim_units trim_units_start
trim_units-pair value h = (
  trim_units_end-solid (pair value) (pair-solid value h),
  trim_units_end-solid (pair value) (pair-solid value h),
)

found_in :
    (value : List ℕ) (later : Option (List ℕ))
    → (if eq_units (name_of (pair value)) session_cookie_name
        then or_null (value_of (pair value))
        else later)
      ≡ or_null value
unfolding name_of value_of
found_in value later = refl

token_in-pair :
    (value : List ℕ) (rest : List (List ℕ))
    → Plain value
    → (token_in (pair value ∷ rest) ≡ or_null value)
      × (token_in ((b' ' ∷ pair value) ∷ rest) ≡ or_null value)
unfolding token_in
token_in-pair value rest h =
    let (first, second) = trim_units-pair value h in
    (rw first (found_in value (token_in rest)), rw second (found_in value (token_in rest)))

-- A cookie of another name, written without a semicolon.
abbrev pub IsOtherCookie : List ℕ → Type 0
IsOtherCookie part =
    LacksSemicolon part × (eq_units (name_of (trim_units part)) session_cookie_name ≡ false)

-- The header of a client that sends other cookies before the session cookie.
unfoldable pub with_others : List (List ℕ) → List ℕ → List ℕ
with_others [] value = pair value
with_others (other ∷ others) value = other ++ b';' ∷ b' ' ∷ with_others others value

token_in-other :
    (part : List ℕ) (rest : List (List ℕ))
    → eq_units (name_of (trim_units part)) session_cookie_name ≡ false
    → token_in (part ∷ rest) ≡ token_in rest
unfolding token_in
token_in-other part rest h = rw h refl

-- After the space that follows a semicolon.
token_in-after :
    (others : List (List ℕ)) (value : List ℕ)
    → Plain value
    → All IsOtherCookie others
    → token_in (split_on b';' (b' ' ∷ with_others others value)) ≡ or_null value
unfolding with_others
token_in-after [] value h hs =
    rw (split_on-whole (b' ' ∷ pair value) (refl, pair-LacksSemicolon value h))
      (token_in-pair value [] h).1
token_in-after (o ∷ others) value h ((semi, name), hs) =
    rw (split_on-first (b' ' ∷ o) (b' ' ∷ with_others others value) (refl, semi)) (
      token_in-other (b' ' ∷ o) (split_on b';' (b' ' ∷ with_others others value)) (spaced name)
      ∙ token_in-after others value h hs)
  where
    spaced :
        eq_units (name_of (trim_units o)) session_cookie_name ≡ false
        → eq_units (name_of (trim_units (b' ' ∷ o))) session_cookie_name ≡ false
    spaced e = unfold trim_units trim_units_start in e

parse_cookie_token-parts :
    (header : List ℕ) → parse_cookie_token header ≡ token_in (split_on b';' header)
unfolding parse_cookie_token split_on token_in trim_units trim_units_start trim_units_end name_of
parse_cookie_token-parts [] = refl
parse_cookie_token-parts (c ∷ cs) = refl

-- The token of the session cookie is found in a header that carries it after any cookies of other
-- names.
pub parse_cookie_token-with_others :
    (others : List (List ℕ)) (raw : List ℕ)
    → IsToken raw
    → All IsOtherCookie others
    → parse_cookie_token (with_others others raw) ≡ some raw
unfolding with_others
parse_cookie_token-with_others [] raw h hs =
    parse_cookie_token-parts (pair raw)
    ∙ rw (split_on-whole (pair raw) (pair-LacksSemicolon raw (IsToken-Plain raw h)))
        ((token_in-pair raw [] (IsToken-Plain raw h)).0 ∙ or_null-token raw h)
parse_cookie_token-with_others (o ∷ others) raw h ((semi, name), hs) =
    parse_cookie_token-parts (o ++ b';' ∷ b' ' ∷ with_others others raw)
    ∙ rw (split_on-first o (b' ' ∷ with_others others raw) semi) (
        token_in-other o (split_on b';' (b' ' ∷ with_others others raw)) name
        ∙ token_in-after others raw (IsToken-Plain raw h) hs
        ∙ or_null-token raw h)

parse_cookie_token-pair :
    (value rest : List ℕ)
    → Plain value
    → parse_cookie_token (pair value ++ b';' ∷ rest) ≡ or_null value
parse_cookie_token-pair value rest h =
    parse_cookie_token-parts (pair value ++ b';' ∷ rest)
    ∙ rw (split_on-first (pair value) rest (pair-LacksSemicolon value h))
        (token_in-pair value (split_on b';' rest) h).0

-- The header that sets the cookie carries the token that it was built from, and the header that clears
-- it carries none, with the secure flag and without it.
pub parse_cookie_token-build :
    (raw : List ℕ) (insecure : Bool)
    → IsToken raw
    → (parse_cookie_token (build_set_cookie_header raw insecure) ≡ some raw)
      × (parse_cookie_token (clear_cookie_header insecure) ≡ none)
unfolding build_set_cookie_header clear_cookie_header join_parts
parse_cookie_token-build raw insecure h = (
  parse_cookie_token-pair raw _ (IsToken-Plain raw h) ∙ or_null-token raw h,
  parse_cookie_token-pair [] _ tt,
)
