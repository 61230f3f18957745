-- ===== src/Ssh/Budget/Window.antt =====
-- The budget bounds the connections of a machine in every window.
use samohost.Prelude.{
  ℕ, ◌≤◌, ◌≡◌, refl, sym, ap, ◌∙◌, inl, inr, String, Bool, true, false, ◌==◌, List, [], ◌∷◌, ◌++◌,
  filter, length, length-append, length-filter, arith, Bool-cases, eq_iff, leb, if◌then◌else◌,
}
use mathlib.Core.Path.{subst}
use samohost.Ssh.Budget.{BudgetOpts, Attempts, is_recent, consume_times, consume, set_attempts}

-- The calls of `consume`, each with its machine and its time, and the attempts that they allowed.
abbrev pub Call : Type 0
Call = String × ℕ

-- The clock does not go back.
abbrev pub IsMonotone : ℕ → List Call → Type 0
IsMonotone last [] = Unit
IsMonotone last ((vm_id, now) ∷ calls) = (last ≤ now) × IsMonotone now calls

abbrev pub last_time : ℕ → List Call → ℕ
last_time last [] = last
last_time last ((vm_id, now) ∷ calls) = last_time now calls

module _ (opts : BudgetOpts) where
  abbrev logged : Bool → ℕ → List ℕ → List ℕ
  logged true now log = log ++ now ∷ []
  logged false now log = log

  -- The allowed attempts of one machine after some calls, in order.
  unfoldable pub allowed : String → List Call → Attempts → List ℕ → List ℕ
  allowed vm_id [] m log = log
  allowed vm_id ((id, now) ∷ calls) m log =
      allowed vm_id calls (consume opts id now m).1
        (if vm_id == id then logged (consume opts id now m).0 now log else log)

  filter-append :
      (now : ℕ) (xs ys : List ℕ)
      → filter (is_recent opts now) (xs ++ ys)
        ≡ filter (is_recent opts now) xs ++ filter (is_recent opts now) ys
  filter-append now [] ys = refl
  filter-append now (x ∷ xs) ys = ground (arith, filter-append now xs ys)

  filter-filter :
      (now later : ℕ) (xs : List ℕ)
      → now ≤ later
      → filter (is_recent opts later) (filter (is_recent opts now) xs)
        ≡ filter (is_recent opts later) xs
  filter-filter now later [] h = refl
  filter-filter now later (x ∷ xs) h = ground (arith, filter-filter now later xs h)

  -- The kept times stand for the allowed ones at every later time, and they are few.
  record Bounded (last : ℕ) (times log : List ℕ) : Type 0 where
    same :
        (later : ℕ)
        → last ≤ later
        → filter (is_recent opts later) log ≡ filter (is_recent opts later) times
    few : length times ≤ opts.max_attempts

  room_for_one :
      (now : ℕ) (times : List ℕ)
      → leb opts.max_attempts (length times) ≡ false
      → length (times ++ now ∷ []) ≤ opts.max_attempts
  room_for_one now times free = ground (arith, length-append times (now ∷ []), free)

  both_pushed :
      (now later : ℕ) (times log : List ℕ)
      → filter (is_recent opts later) log ≡ filter (is_recent opts later) times
      → now ≤ later
      → filter (is_recent opts later) (log ++ now ∷ [])
        ≡ filter (is_recent opts later) (filter (is_recent opts now) times ++ now ∷ [])
  both_pushed now later times log same g =
      filter-append later log (now ∷ [])
      ∙ ap (λ (xs : List ℕ). xs ++ filter (is_recent opts later) (now ∷ []))
          (same ∙ sym (filter-filter now later times g))
      ∙ sym (filter-append later (filter (is_recent opts now) times) (now ∷ []))

  admit-Bounded :
      (last now : ℕ) (times log : List ℕ)
      → last ≤ now
      → Bounded last times log
      → Bounded now
          (consume_times opts now times).1
          (logged (consume_times opts now times).0 now log)
  unfolding consume_times
  admit-Bounded last now times log h b =
      elim (Bool-cases (leb opts.max_attempts (length (filter (is_recent opts now) times)))) [
        | inl full ↦ rw full (record {
          same =
              λ later g. b.same later (omega (arith, h, g)) ∙ sym (filter-filter now later times g);
          few = omega (arith, length-filter (is_recent opts now) times, b.few);
        })
        | inr free ↦ rw free (record {
          same = λ later g. both_pushed now later times log (b.same later (omega (arith, h, g))) g;
          few = room_for_one now (filter (is_recent opts now) times) free;
        })
      ]

  Bounded-later :
      (last now : ℕ) (times log : List ℕ)
      → last ≤ now
      → Bounded last times log
      → Bounded now times log
  Bounded-later last now times log h b = record {
    same = λ later g. b.same later (omega (arith, h, g));
    few = b.few;
  }

  consume-Bounded :
      (vm_id id : String) (last now : ℕ) (m : Attempts) (log : List ℕ)
      → last ≤ now
      → Bounded last (m vm_id) log
      → Bounded now
          ((consume opts id now m).1 vm_id)
          (if vm_id == id then logged (consume opts id now m).0 now log else log)
  unfolding consume set_attempts
  consume-Bounded vm_id id last now m log h b = elim (Bool-cases (vm_id == id)) [
    | inl this ↦ rw this (
        admit-Bounded last now (m id) log h
          (subst (λ v. Bounded last (m v) log) ((eq_iff vm_id id).0 this) b))
    | inr another ↦ rw another (Bounded-later last now (m vm_id) log h b)
  ]

  allowed-Bounded :
      (vm_id : String) (calls : List Call) (m : Attempts) (last : ℕ) (log : List ℕ)
      → IsMonotone last calls
      → Bounded last (m vm_id) log
      → (later : ℕ) → last_time last calls ≤ later
      → length (filter (is_recent opts later) (allowed vm_id calls m log)) ≤ opts.max_attempts
  unfolding allowed
  allowed-Bounded vm_id [] m last log monotone b later h =
      rw (b.same later h) (omega (arith, length-filter (is_recent opts later) (m vm_id), b.few))
  allowed-Bounded vm_id ((id, now) ∷ calls) m last log (h, monotone) b later g =
      allowed-Bounded vm_id calls (consume opts id now m).1 now
        (if vm_id == id then logged (consume opts id now m).0 now log else log) monotone
        (consume-Bounded vm_id id last now m log h b) later g

abbrev pub no_attempts : Attempts
no_attempts vm_id = []

-- Whatever calls were made, for whatever machines, on a clock that does not go back: at no time from
-- the last call on has a machine more allowed connections within the window than the budget has
-- attempts.
pub length-allowed :
    (opts : BudgetOpts) (vm_id : String) (calls : List Call) (later : ℕ)
    → IsMonotone 0 calls
    → last_time 0 calls ≤ later
    → length (filter (is_recent opts later) (allowed opts vm_id calls no_attempts []))
      ≤ opts.max_attempts
length-allowed opts vm_id calls later monotone h =
    allowed-Bounded opts vm_id calls no_attempts 0 [] monotone
      (record { same = λ l g. refl; few = omega arith }) later h
