-- ===== src/Deploy/ReleaseTag.antt =====
-- `isDateReleaseTag` and `SHA_RE` of src/commands/app.ts.
use samohost.Prelude.{
  ℕ, ◌+◌, ◌-◌, ◌*◌, ◌%◌, String, Bool, false, not, ◌&&◌, ◌||◌, List, [], ◌∷◌, eqb, leb, length, all,
  units, is_digit, if◌then◌else◌,
}

abbrev digit : ℕ → ℕ
digit c = c - b'0'

abbrev digit_value : ℕ → ℕ → ℕ
digit_value a b = digit a * 10 + digit b

abbrev is_leap : ℕ → Bool
is_leap year = eqb (year % 4) 0 && (not (eqb (year % 100) 0) || eqb (year % 400) 0)

unfoldable pub days_in_month : ℕ → ℕ → ℕ
days_in_month year month =
    if eqb month 2
    then (if is_leap year then 29 else 28)
    else if eqb month 4 || (eqb month 6 || (eqb month 9 || eqb month 11))
    then 30
    else 31

-- `Date.UTC` followed by the three getters gives the parts back exactly for the dates of the
-- calendar from the year 100 on: it reads the years 0 to 99 as 1900 to 1999.
unfoldable pub is_utc_date : ℕ → ℕ → ℕ → Bool
unfolding days_in_month
is_utc_date year month day =
    leb 100 year
    && (leb 1 month && (leb month 12 && (leb 1 day && leb day (days_in_month year month))))

-- [1-9]\d*
abbrev is_counter : List ℕ → Bool
is_counter [] = false
is_counter (c ∷ cs) = leb b'1' c && (leb c b'9' && all is_digit cs)

unfoldable pub date_release_tag : List ℕ → Bool
unfolding is_utc_date
date_release_tag (v ∷ a ∷ b ∷ c ∷ d ∷ m ∷ n ∷ x ∷ y ∷ dot ∷ rest) =
    eqb v b'v'
    && (all is_digit (a ∷ b ∷ c ∷ d ∷ m ∷ n ∷ x ∷ y ∷ [])
        && (eqb dot b'.'
            && (is_counter rest
                && is_utc_date (digit_value a b * 100 + digit_value c d) (digit_value m n)
                    (digit_value x y))))
date_release_tag _ = false

unfoldable pub is_date_release_tag : String → Bool
is_date_release_tag name = date_release_tag (units name)

abbrev is_hex : ℕ → Bool
is_hex c = is_digit c || ((leb b'a' c && leb c b'f') || (leb b'A' c && leb c b'F'))

-- /^[0-9a-f]{7,40}$/i
unfoldable pub sha_re : String → Bool
sha_re s = let text = units s in leb 7 (length text) && (leb (length text) 40 && all is_hex text)
