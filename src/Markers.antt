-- ===== src/Markers.antt =====
-- The marker lines that the remote scripts print, and the regular expression of src/app/parse.ts and
-- src/env/parse.ts that finds them: the prefix, `([a-z-]+):(start|ok|fail)>>>`, everywhere in the
-- text. The character after the name is outside its class, so the match never backtracks.
pub mod RoundTrip
use samohost.Prelude.{
  ℕ, zero, suc, String, Bool, ◌||◌, ◌&&◌, true, false, Option, none, some, List, [], ◌∷◌, ◌++◌, eqb,
  length, units, is_lower, if◌then◌else◌,
}

pub data PhaseStatus : Type 0 where
  start ok fail : PhaseStatus

abbrev pub Marker : Type 0
Marker = List ℕ × PhaseStatus

unfoldable pub phase_prefix : List ℕ
phase_prefix = units "<<<SAMOHOST_PHASE:"

abbrev pub status_text : PhaseStatus → List ℕ
status_text start = units "start>>>"
status_text ok = units "ok>>>"
status_text fail = units "fail>>>"

-- `marker` of src/app/script.ts and src/env/script.ts, without the `echo`.
unfoldable pub marker : Marker → List ℕ
marker (name, status) = phase_prefix ++ (name ++ b':' ∷ status_text status)

abbrev pub same_text : List ℕ → List ℕ → Bool
same_text [] [] = true
same_text (a ∷ s) (b ∷ t) = eqb a b && same_text s t
same_text _ _ = false

unfoldable pub strip_prefix : List ℕ → List ℕ → Option (List ℕ)
strip_prefix [] text = some text
strip_prefix (p ∷ ps) [] = none
strip_prefix (p ∷ ps) (c ∷ cs) = if eqb p c then strip_prefix ps cs else none

abbrev pub is_name_char : ℕ → Bool
is_name_char c = is_lower c || eqb c b'-'

-- The longest run of name characters, and the text after it.
unfoldable pub span_name : List ℕ → List ℕ × List ℕ
span_name [] = ([], [])
span_name (c ∷ cs) =
    let (name, rest) = span_name cs in if is_name_char c then (c ∷ name, rest) else ([], c ∷ cs)

abbrev ended_by : PhaseStatus → List ℕ → Option (List ℕ) → Option (Marker × List ℕ)
ended_by status name none = none
ended_by status name (some rest) = some ((name, status), rest)

abbrev or_try : Option (Marker × List ℕ) → Option (Marker × List ℕ) → Option (Marker × List ℕ)
or_try none other = other
or_try (some m) other = some m

abbrev pub with_status : List ℕ → List ℕ → Option (Marker × List ℕ)
with_status name text = or_try (ended_by start name (strip_prefix (status_text start) text)) (
    or_try (ended_by ok name (strip_prefix (status_text ok) text))
      (ended_by fail name (strip_prefix (status_text fail) text)))

-- The name is not empty, and a colon follows it.
abbrev after_name : List ℕ → List ℕ → Option (Marker × List ℕ)
after_name [] rest = none
after_name (c ∷ cs) [] = none
after_name (c ∷ cs) (d ∷ rest) = if eqb d b':' then with_status (c ∷ cs) rest else none

abbrev after_prefix : Option (List ℕ) → Option (Marker × List ℕ)
after_prefix none = none
after_prefix (some text) = let (name, rest) = span_name text in after_name name rest

-- A match at the head of the text, with the text after it.
unfoldable pub marker_at : List ℕ → Option (Marker × List ℕ)
marker_at text = after_prefix (strip_prefix phase_prefix text)

-- `matchAll`: after a match the search goes on behind it. The fuel bounds the characters read.
unfoldable pub markers_from : ℕ → List ℕ → List Marker
markers_from zero text = []
markers_from (suc fuel) [] = []
markers_from (suc fuel) (c ∷ cs) = elim (marker_at (c ∷ cs)) [
  | none ↦ markers_from fuel cs
  | some (m, rest) ↦ m ∷ markers_from fuel rest
]

unfoldable pub markers : List ℕ → List Marker
markers text = markers_from (length text) text
