-- ===== src/Auth/Throttle.antt =====
-- packages/auth/src/throttle.ts: `SqliteThrottle`. A login is thrown to lower case before it is used
-- as a key.
pub mod Rows
pub mod Window
use samohost.Prelude.{
  ℕ, ◌+◌, ◌*◌, String, Bool, true, false, not, ◌&&◌, Option, none, some, List, [], ◌∷◌, ◌++◌, map,
  find, filter, units, to_lower_case, ltb, leb, if◌then◌else◌,
}
use samohost.Preview.Names.{eq_units}

abbrev pub throttle_max_attempts : ℕ
throttle_max_attempts = 5

abbrev pub throttle_window_ms : ℕ
throttle_window_ms = 15 * 60 * 1000

pub record LoginAttempt : Type 0 where
  pub id : String
  pub login_key : List ℕ
  pub attempt_count : ℕ
  pub window_start : ℕ
  pub updated_at : ℕ

abbrev pub key_of : String → List ℕ
key_of login = to_lower_case (units login)

abbrev pub has_key : List ℕ → LoginAttempt → Bool
has_key key row = eq_units row.login_key key

-- `window_start > cutoff` for the cutoff of a time, the window before it.
abbrev pub is_live : ℕ → LoginAttempt → Bool
is_live at row = ltb at (row.window_start + throttle_window_ms)

abbrev pub exceeds : Option LoginAttempt → Bool
exceeds none = false
exceeds (some row) = leb throttle_max_attempts row.attempt_count

unfoldable pub is_throttled : String → ℕ → List LoginAttempt → Bool
is_throttled login at rows =
    exceeds (find (λ row. has_key (key_of login) row && is_live at row) rows)

-- `UPDATE`: every row that passes the test.
abbrev pub update_where :
    (LoginAttempt → Bool) → (LoginAttempt → LoginAttempt) → List LoginAttempt → List LoginAttempt
update_where p f rows = map (λ row. if p row then f row else row) rows

abbrev pub fresh_attempt : String → List ℕ → ℕ → LoginAttempt
fresh_attempt id key now = record {
  id = id;
  login_key = key;
  attempt_count = 1;
  window_start = now;
  updated_at = now;
}

abbrev pub reset : ℕ → LoginAttempt → LoginAttempt
reset now row = record row { attempt_count = 1; window_start = now; updated_at = now }

abbrev pub counted : ℕ → LoginAttempt → LoginAttempt
counted now row = record row { attempt_count = row.attempt_count + 1; updated_at = now }

-- One failed sign-in: the clock is read for the cutoff, at `at`, and then for the row, at `now`.
pub record Failure : Type 0 where
  pub login : String
  pub at : ℕ
  pub now : ℕ
  pub id : String

abbrev pub recorded : Failure → Option LoginAttempt → List LoginAttempt → List LoginAttempt
recorded f none rows = rows ++ fresh_attempt f.id (key_of f.login) f.now ∷ []
recorded f (some existing) rows =
    if not (is_live f.at existing)
    then update_where (has_key (key_of f.login)) (reset f.now) rows
    else update_where (has_key (key_of f.login)) (counted f.now) rows

unfoldable pub record_failure : Failure → List LoginAttempt → List LoginAttempt
record_failure f rows = recorded f (find (has_key (key_of f.login)) rows) rows

unfoldable pub clear_throttle : String → List LoginAttempt → List LoginAttempt
clear_throttle login rows = filter (λ row. not (has_key (key_of login) row)) rows

-- Failures one after the other.
unfoldable pub record_failures : List Failure → List LoginAttempt → List LoginAttempt
record_failures [] rows = rows
record_failures (f ∷ fs) rows = record_failures fs (record_failure f rows)
