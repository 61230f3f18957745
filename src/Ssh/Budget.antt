-- ===== src/Ssh/Budget.antt =====
-- src/ssh/runner.ts, `ConnectionBudget`: at most so many connection attempts per machine in a rolling
-- window. Times are milliseconds; the `Map` is a function from a machine's id to its attempts.
pub mod Window
use samohost.Prelude.{
  ℕ, ◌+◌, ◌*◌, String, Bool, true, false, ◌==◌, List, [], ◌∷◌, ◌++◌, filter, length, ltb, leb,
  if◌then◌else◌,
}

pub record BudgetOpts : Type 0 where
  pub max_attempts : ℕ
  pub window_sec : ℕ

abbrev pub default_opts : BudgetOpts
default_opts = record { max_attempts = 2; window_sec = 600 }

abbrev pub Attempts : Type 0
Attempts = String → List ℕ

-- `Map.set`.
unfoldable pub set_attempts : String → List ℕ → Attempts → Attempts
set_attempts vm_id times m = λ id. if id == vm_id then times else m id

module _ (opts : BudgetOpts) where
  -- `t > cutoff`, where the cut-off is `now` less the window.
  abbrev pub is_recent : ℕ → ℕ → Bool
  is_recent now t = ltb now (t + opts.window_sec * 1000)

  abbrev pub admit : ℕ → List ℕ → Bool × List ℕ
  admit now recent =
      if leb opts.max_attempts (length recent) then (false, recent) else (true, recent ++ now ∷ [])

  -- The attempts of one machine, with whether the call returned instead of throwing.
  unfoldable pub consume_times : ℕ → List ℕ → Bool × List ℕ
  consume_times now times = admit now (filter (is_recent now) times)

  unfoldable pub consume : String → ℕ → Attempts → Bool × Attempts
  consume vm_id now m =
      let (allowed, times) = consume_times now (m vm_id) in (allowed, set_attempts vm_id times m)
