-- ===== src/Auth/Throttle/Rows.antt =====
-- The rows of one login, before and after a failure of it or of another login.
use samohost.Prelude.{
  ℕ, ◌+◌, ◌⊎◌, ◌<◌, ◌≡◌, ◌≢◌, refl, ◌∙◌, ap, sym, inl, inr, Bool, true, false, not, ◌&&◌, Option,
  none, some, List, [], ◌∷◌, ◌++◌, map, find, filter, eqb→eq, arith, Bool-cases, if◌then◌else◌,
}
use samohost.Preview.Names.{eq_units}
use samohost.Auth.Throttle.{
  LoginAttempt, Failure, throttle_window_ms, key_of, has_key, is_live, update_where, fresh_attempt,
  reset, counted, recorded, record_failure,
}

eq_units_refl : (cs : List ℕ) → eq_units cs cs ≡ true
eq_units_refl [] = refl
eq_units_refl (c ∷ cs) = ground (arith, eq_units_refl cs)

eq_units→eq : (cs ds : List ℕ) → eq_units cs ds ≡ true → cs ≡ ds
eq_units→eq [] [] h = refl
eq_units→eq [] (d ∷ ds) h = cc
eq_units→eq (c ∷ cs) [] h = cc
eq_units→eq (c ∷ cs) (d ∷ ds) h = ground (arith, h, eqb→eq c d, eq_units→eq cs ds)

-- The rows of a key; the table allows one at most.
abbrev pub rows_of : List ℕ → List LoginAttempt → List LoginAttempt
rows_of key = filter (has_key key)

pub find-rows_of :
    (key : List ℕ) (q : LoginAttempt → Bool) (rows : List LoginAttempt)
    → find (λ row. has_key key row && q row) rows ≡ find q (rows_of key rows)
find-rows_of key q [] = refl
find-rows_of key q (r ∷ rows) = ground (arith, find-rows_of key q rows)

find-key :
    (key : List ℕ) (rows : List LoginAttempt)
    → find (has_key key) rows ≡ find (λ _. true) (rows_of key rows)
find-key key [] = refl
find-key key (r ∷ rows) = ground (arith, find-key key rows)

rows_of-append :
    (key : List ℕ) (xs ys : List LoginAttempt)
    → rows_of key (xs ++ ys) ≡ rows_of key xs ++ rows_of key ys
rows_of-append key [] ys = refl
rows_of-append key (x ∷ xs) ys = ground (arith, rows_of-append key xs ys)

rows_of-updated :
    (key : List ℕ) (f : LoginAttempt → LoginAttempt)
    → ((r : LoginAttempt) → (f r).login_key ≡ r.login_key)
    → (rows : List LoginAttempt)
    → rows_of key (update_where (has_key key) f rows) ≡ map f (rows_of key rows)
rows_of-updated key f same [] = refl
rows_of-updated key f same (r ∷ rows) = ground (arith, same r, rows_of-updated key f same rows)

rows_of-other :
    (key key' : List ℕ) (f : LoginAttempt → LoginAttempt)
    → ((r : LoginAttempt) → (f r).login_key ≡ r.login_key)
    → key ≢ key'
    → (rows : List LoginAttempt)
    → rows_of key' (update_where (has_key key) f rows) ≡ rows_of key' rows
rows_of-other key key' f same other [] = refl
rows_of-other key key' f same other (r ∷ rows) =
    by_row (Bool-cases (has_key key r)) (Bool-cases (has_key key' r))
      (rows_of-other key key' f same other rows)
  where
    by_row :
        (has_key key r ≡ true) ⊎ (has_key key r ≡ false)
        → (has_key key' r ≡ true) ⊎ (has_key key' r ≡ false)
        → rows_of key' (update_where (has_key key) f rows) ≡ rows_of key' rows
        → rows_of key' (update_where (has_key key) f (r ∷ rows)) ≡ rows_of key' (r ∷ rows)
    by_row (inl a) (inl b) rest =
        absurd (other (sym (eq_units→eq r.login_key key a) ∙ eq_units→eq r.login_key key' b))
    by_row (inl a) (inr b) rest = ground (arith, a, b, same r, rest)
    by_row (inr a) b rest = ground (arith, a, rest)

-- A failure opens a window where there is no row.
pub record_failure-first :
    (f : Failure) (rows : List LoginAttempt)
    → rows_of (key_of f.login) rows ≡ []
    → rows_of (key_of f.login) (record_failure f rows)
      ≡ fresh_attempt f.id (key_of f.login) f.now ∷ []
unfolding record_failure
record_failure-first f rows h =
    let key = key_of f.login in
    let absent : find (has_key key) rows ≡ none =
      find-key key rows ∙ ap (find (λ (r : LoginAttempt). true)) h in
    rw absent (
      rows_of-append key rows (fresh_attempt f.id key f.now ∷ [])
      ∙ ground (arith, h, eq_units_refl key))

-- A failure in the window is counted.
pub record_failure-live :
    (f : Failure) (rows : List LoginAttempt) (r : LoginAttempt)
    → rows_of (key_of f.login) rows ≡ r ∷ []
    → f.at < r.window_start + throttle_window_ms
    → rows_of (key_of f.login) (record_failure f rows) ≡ counted f.now r ∷ []
unfolding record_failure
record_failure-live f rows r h live =
    let key = key_of f.login in
    let present : find (has_key key) rows ≡ some r =
      find-key key rows ∙ ap (find (λ (r : LoginAttempt). true)) h in
    let within : is_live f.at r ≡ true = ground (arith, live) in
    rw (present, within)
      (rows_of-updated key (counted f.now) (λ x. refl) rows ∙ ap (map (counted f.now)) h)

-- A failure of another login leaves a login's rows.
pub record_failure-other :
    (f : Failure) (key : List ℕ) (rows : List LoginAttempt)
    → key_of f.login ≢ key
    → rows_of key (record_failure f rows) ≡ rows_of key rows
unfolding record_failure
record_failure-other f key rows other = by_row (find (has_key (key_of f.login)) rows)
  where
    absent : has_key key (fresh_attempt f.id (key_of f.login) f.now) ≡ false
    absent = elim (Bool-cases (eq_units (key_of f.login) key)) [
      | inl e ↦ absurd (other (eq_units→eq (key_of f.login) key e))
      | inr e ↦ e
    ]

    appended-nil : (xs : List LoginAttempt) → xs ++ [] ≡ xs
    appended-nil [] = refl
    appended-nil (x ∷ xs) = ap (λ ys. x ∷ ys) (appended-nil xs)

    updated :
        (b : Bool) (r : LoginAttempt)
        → rows_of key (
            if b
            then update_where (has_key (key_of f.login)) (reset f.now) rows
            else update_where (has_key (key_of f.login)) (counted f.now) rows)
          ≡ rows_of key rows
    updated true r = rows_of-other (key_of f.login) key (reset f.now) (λ x. refl) other rows
    updated false r = rows_of-other (key_of f.login) key (counted f.now) (λ x. refl) other rows

    by_row : (o : Option LoginAttempt) → rows_of key (recorded f o rows) ≡ rows_of key rows
    by_row none =
        rows_of-append key rows (fresh_attempt f.id (key_of f.login) f.now ∷ [])
        ∙ ap
            (λ (b : Bool).
              rows_of key rows
              ++ elim b [ true ↦ fresh_attempt f.id (key_of f.login) f.now ∷ [] | false ↦ [] ])
            absent
        ∙ appended-nil (rows_of key rows)
    by_row (some r) = updated (not (is_live f.at r)) r
