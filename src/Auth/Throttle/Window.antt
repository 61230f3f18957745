-- ===== src/Auth/Throttle/Window.antt =====
-- When a login is throttled, in terms of the failures in its window.
use mathlib.Core.Path.{subst}
use samohost.Prelude.{
  ℕ, ◌+◌, ◌*◌, ◌<◌, ◌≡◌, ◌≢◌, refl, ◌∙◌, ap, sym, String, Bool, true, false, not, ◌&&◌, none, some,
  List, [], ◌∷◌, find, filter, length, All, ltb, leb, arith,
}
use samohost.Auth.Throttle.{
  LoginAttempt, Failure, throttle_max_attempts, throttle_window_ms, key_of, has_key, is_live,
  exceeds, is_throttled, fresh_attempt, counted, record_failure, clear_throttle, record_failures,
}
use samohost.Auth.Throttle.Rows.{
  rows_of, find-rows_of, record_failure-first, record_failure-live, record_failure-other,
}

-- A failure of the login, before the end of the window that opened at a time.
abbrev pub IsWithin : String → ℕ → Failure → Type 0
IsWithin login start f = (key_of f.login ≡ key_of login) × (f.at < start + throttle_window_ms)

record_failures-counted :
    (login : String) (fs : List Failure) (rows : List LoginAttempt) (r : LoginAttempt)
    → All (IsWithin login r.window_start) fs
    → rows_of (key_of login) rows ≡ r ∷ []
    → (last : LoginAttempt) × (rows_of (key_of login) (record_failures fs rows) ≡ last ∷ [])
      × (last.attempt_count ≡ r.attempt_count + length fs)
      × (last.window_start ≡ r.window_start)
unfolding record_failures
record_failures-counted login [] rows r within h = (r, h, omega arith, refl)
record_failures-counted login (f ∷ fs) rows r ((same, early), within) h =
    let one =
      subst (λ key. rows_of key (record_failure f rows) ≡ counted f.now r ∷ []) same
        (record_failure-live f rows r (subst (λ key. rows_of key rows ≡ r ∷ []) (sym same) h)
          early) in
    let (last, row, count, start) =
      record_failures-counted login fs (record_failure f rows) (counted f.now r) within one in
    (last, row, omega (arith, count), start)

is_throttled-row :
    (login : String) (at : ℕ) (rows : List LoginAttempt) (r : LoginAttempt)
    → rows_of (key_of login) rows ≡ r ∷ []
    → is_throttled login at rows
      ≡ (ltb at (r.window_start + throttle_window_ms) && leb throttle_max_attempts r.attempt_count)
unfolding is_throttled
is_throttled-row login at rows r h =
    ap exceeds (find-rows_of (key_of login) (is_live at) rows ∙ ap (find (is_live at)) h)
    ∙ by_window (is_live at r)
  where
    by_window :
        (b : Bool)
        → exceeds (elim b [ true ↦ some r | false ↦ none ])
          ≡ (b && leb throttle_max_attempts r.attempt_count)
    by_window true = refl
    by_window false = refl

-- A login without a row fails once, which opens its window, and then some more times within it, in
-- whatever case its letters are written. It is then throttled exactly until the window ends, fifteen
-- minutes after it opened, and only if there were five failures or more.
pub is_throttled-failures :
    (login : String) (f : Failure) (fs : List Failure) (rows : List LoginAttempt) (at : ℕ)
    → rows_of (key_of login) rows ≡ []
    → key_of f.login ≡ key_of login
    → All (IsWithin login f.now) fs
    → is_throttled login at (record_failures (f ∷ fs) rows)
      ≡ (ltb at (f.now + 15 * 60 * 1000) && leb 5 (length (f ∷ fs)))
unfolding record_failures
is_throttled-failures login f fs rows at h same within =
    let first =
      subst (λ key. rows_of key (record_failure f rows) ≡ fresh_attempt f.id key f.now ∷ []) same
        (record_failure-first f rows (subst (λ key. rows_of key rows ≡ []) (sym same) h)) in
    let (last, row, count, start) =
      record_failures-counted login fs (record_failure f rows)
        (fresh_attempt f.id (key_of login) f.now) within first in
    is_throttled-row login at (record_failures fs (record_failure f rows)) last row
    ∙ ground (arith, count, start)

record_failures-other :
    (login : String) (fs : List Failure) (rows : List LoginAttempt)
    → All (λ f. key_of f.login ≢ key_of login) fs
    → rows_of (key_of login) (record_failures fs rows) ≡ rows_of (key_of login) rows
unfolding record_failures
record_failures-other login [] rows h = refl
record_failures-other login (f ∷ fs) rows (h, hs) =
    record_failures-other login fs (record_failure f rows) hs
    ∙ record_failure-other f (key_of login) rows h

-- The failures of other logins do not throttle a login, and a login is not throttled after a sign-in
-- that worked, whatever failures came before it.
pub is_throttled-others :
    (login : String) (fs : List Failure) (rows : List LoginAttempt) (at : ℕ)
    → All (λ f. key_of f.login ≢ key_of login) fs
    → (is_throttled login at (record_failures fs rows) ≡ is_throttled login at rows)
      × (is_throttled login at (record_failures fs (clear_throttle login rows)) ≡ false)
unfolding is_throttled clear_throttle
is_throttled-others login fs rows at h = (
  seen (record_failures fs rows) rows (record_failures-other login fs rows h),
  ap exceeds (
      find-rows_of (key_of login) (is_live at) (record_failures fs (clear_throttle login rows))
      ∙ ap (find (is_live at))
          (record_failures-other login fs (clear_throttle login rows) h ∙ cleared rows)),
)
  where
    seen :
        (xs ys : List LoginAttempt)
        → rows_of (key_of login) xs ≡ rows_of (key_of login) ys
        → is_throttled login at xs ≡ is_throttled login at ys
    seen xs ys e = ap exceeds (
        find-rows_of (key_of login) (is_live at) xs
        ∙ ap (find (is_live at)) e
        ∙ sym (find-rows_of (key_of login) (is_live at) ys))

    cleared :
        (rows : List LoginAttempt)
        → rows_of (key_of login) (filter (λ row. not (has_key (key_of login) row)) rows) ≡ []
    cleared [] = refl
    cleared (r ∷ rows) = ground (arith, cleared rows)
