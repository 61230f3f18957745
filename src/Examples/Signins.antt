-- ===== src/Examples/Signins.antt =====
-- Sign-ins at concrete inputs: failures in the window, and a session with its cookie.
use samohost.Prelude.{
  ℕ, ◌≡◌, ◌+◌, ◌*◌, ◌&&◌, refl, String, false, none, some, List, [], ◌∷◌, units, trim_units,
  trim_units_start, trim_units_end, length, ltb, leb, arith, if◌then◌else◌,
}
use samohost.Auth.Throttle.{Failure, is_throttled, record_failures}
use samohost.Auth.Throttle.Window.{is_throttled-failures}
use samohost.Auth.Session.{AppUser, Database, expiry, create_session, revoke_session, new_session}
use samohost.Auth.Cookie.{parse_cookie_token, build_set_cookie_header, clear_cookie_header, name_of}
use samohost.Auth.Cookie.RoundTrip.{with_others, parse_cookie_token-build}
use samohost.Auth.Guard.{authorized, unauthorized, require_auth}
use samohost.Auth.Guard.SignedIn.{require_auth-session}

abbrev failure : String → ℕ → Failure
failure login now = record { login = login; at = now; now = now; id = "row" }

abbrev more_failures : List Failure
more_failures =
    failure "Ann" 2000 ∷ failure "ANN" 3000 ∷ failure "ann" 4000 ∷ failure "ann" 5000 ∷ []

is_throttled-failures_example :
    is_throttled "ann" 6000 (record_failures (failure "ann" 1000 ∷ more_failures) [])
    ≡ (ltb 6000 (1000 + 15 * 60 * 1000) && leb 5 (length (failure "ann" 1000 ∷ more_failures)))
is_throttled-failures_example =
    is_throttled-failures "ann" (failure "ann" 1000) more_failures [] 6000 refl refl
      ((refl, omega arith), ((refl, omega arith), ((refl, omega arith), ((refl, omega arith), tt))))

abbrev raw_token : List ℕ
raw_token = units "00ff"

parse_cookie_token-build_example :
    (parse_cookie_token (build_set_cookie_header raw_token false) ≡ some raw_token)
    × (parse_cookie_token (clear_cookie_header false) ≡ none)
parse_cookie_token-build_example =
    parse_cookie_token-build raw_token false (refl, (refl, (refl, (refl, tt))))

abbrev user : AppUser
user = record {
  user = record { id = "u-1"; login = "ann"; email = none; role = "user"; status = "active" };
  archived_at = none;
}

-- A stand-in for the hash of a token.
abbrev hash_of : List ℕ → String
hash_of [] = ""
hash_of (c ∷ cs) = "hash"

abbrev signed_out : Database
signed_out = record { users = user ∷ []; sessions = [] }

abbrev signed_in : Database
signed_in = record {
  users = user ∷ [];
  sessions = new_session hash_of raw_token "s-1" "u-1" 1000 none ∷ [];
}

require_auth-session_example :
    (require_auth hash_of signed_in 2000 (some (with_others (units "theme=dark" ∷ []) raw_token))
      ≡ (if ltb 2000 (expiry 1000 none) then authorized user.user else unauthorized))
    × (require_auth hash_of
          (revoke_session hash_of raw_token signed_in)
          2000
          (some (with_others (units "theme=dark" ∷ []) raw_token))
        ≡ unauthorized)
unfolding create_session name_of trim_units trim_units_start trim_units_end
require_auth-session_example =
    require_auth-session hash_of raw_token "s-1" "u-1" 1000 none signed_out signed_in
      (units "theme=dark" ∷ []) 2000 user refl refl (refl, (refl, (refl, (refl, tt))))
      (
        ((refl, (refl, (refl, (refl, (refl, (refl, (refl, (refl, (refl, (refl, tt)))))))))), refl),
        tt,
      )
