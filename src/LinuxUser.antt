-- ===== src/LinuxUser.antt =====
-- src/app/linux-user.ts: service-account names that are safe in generated root scripts. The value
-- is a text here, so the test for another JavaScript type is left out.
use samohost.Prelude.{
  ℕ, ◌≤◌, ◌≡◌, String, Bool, true, false, ◌&&◌, ◌||◌, not, Option, none, some, List, [], ◌∷◌, ◌==◌,
  eqb, leb, ltb, if◌then◌else◌, length, all, any, units, is_lower, is_digit, arith,
}

pub data UserError : Type 0 where
  empty too_long bad_shape reserved : UserError

abbrev is_start : ℕ → Bool
is_start c = is_lower c || eqb c b'_'

abbrev pub is_part : ℕ → Bool
is_part c = is_lower c || is_digit c || eqb c b'_' || eqb c b'-'

-- ^[a-z_][a-z0-9_-]{0,31}$
abbrev linux_user_re : List ℕ → Bool
linux_user_re [] = false
linux_user_re (c ∷ cs) = is_start c && leb (length cs) 31 && all is_part cs

abbrev pub reserved_app_users : List String
reserved_app_users = "root" ∷ "postgres" ∷ "caddy" ∷ "sshd" ∷ "nobody" ∷ []

unfoldable pub linux_app_user_error : String → Option UserError
linux_app_user_error value =
    let text = units value in
    if eqb (length text) 0
    then some empty
    else if ltb 32 (length text)
    then some too_long
    else if not (linux_user_re text)
    then some bad_shape
    else if any (λ u. u == value) reserved_app_users
    then some reserved
    else none

-- `assertOptionalLinuxAppUser`: an absent name is accepted.
unfoldable pub optional_linux_app_user_error : Option String → Option UserError
optional_linux_app_user_error none = none
optional_linux_app_user_error (some value) = linux_app_user_error value

all_part : (text : List ℕ) → linux_user_re text ≡ true → all is_part text ≡ true
all_part [] h = cc
all_part (c ∷ cs) h = ground arith

-- An accepted name has 1 to 32 code units, each a lower-case letter, a digit, `_` or `-`, and is
-- none of the reserved accounts.
pub linux_app_user_error-none :
    (value : String)
    → linux_app_user_error value ≡ none
    → (1 ≤ length (units value))
      × (length (units value) ≤ 32)
      × (all is_part (units value) ≡ true)
      × (any (λ u. u == value) reserved_app_users ≡ false)
unfolding linux_app_user_error
linux_app_user_error-none value h =
    (ground arith, ground arith, all_part (units value) (ground arith), ground arith)
