-- ===== src/Deploy/Phases/Stream.antt =====
-- From a deploy script's output to the outcome: what the script's markers say is what is decided.
use samohost.Prelude.{ℕ, ◌≡◌, refl, ◌∙◌, ap, List, [], ◌∷◌, units, arith}
use samohost.Markers.{Marker}
use samohost.Markers.RoundTrip.{IsNoise, IsName, output, printed, IsOutput, markers-output}
use samohost.Deploy.Phases.{
  PhaseName, fetch, checkpoint, checkout, install, build, migrate, restart, caddy_reload, health,
  assert_rls, seed, rollback, PhaseEvent, valid_events, parse_phase_stream, parse_deploy_outcome,
}
use samohost.Deploy.Phases.Outcome.{described, deploy_outcome-eq-described}

-- The names in the scripts.
abbrev pub phase_text : PhaseName → List ℕ
phase_text fetch = units "fetch"
phase_text checkpoint = units "checkpoint"
phase_text checkout = units "checkout"
phase_text install = units "install"
phase_text build = units "build"
phase_text migrate = units "migrate"
phase_text restart = units "restart"
phase_text caddy_reload = units "caddy-reload"
phase_text health = units "health"
phase_text assert_rls = units "assert-rls"
phase_text seed = units "seed"
phase_text rollback = units "rollback"

abbrev pub Chunk : Type 0
Chunk = List ℕ × PhaseEvent

-- The output of a script that prints the events between other output.
abbrev pub printed_as : List Chunk → List (List ℕ × Marker)
printed_as [] = []
printed_as ((noise, (p, status)) ∷ chunks) = (noise, (phase_text p, status)) ∷ printed_as chunks

-- The events but those of `caddy-reload`.
abbrev pub known_events : List Chunk → List PhaseEvent
known_events [] = []
known_events ((noise, (caddy_reload, status)) ∷ chunks) = known_events chunks
known_events ((noise, (p, status)) ∷ chunks) = (p, status) ∷ known_events chunks

abbrev pub IsQuiet : List Chunk → Type 0
IsQuiet [] = Unit
IsQuiet ((noise, e) ∷ chunks) = IsNoise noise × IsQuiet chunks

phase_text-IsName : (p : PhaseName) → IsName (phase_text p)
phase_text-IsName fetch = (omega arith, refl)
phase_text-IsName _ = (omega arith, refl)

printed_as-IsOutput : (chunks : List Chunk) → IsQuiet chunks → IsOutput (printed_as chunks)
printed_as-IsOutput [] q = tt
printed_as-IsOutput ((noise, (p, status)) ∷ chunks) (n, q) =
    (n, phase_text-IsName p, printed_as-IsOutput chunks q)

valid_events-printed :
    (chunks : List Chunk) → valid_events (printed (printed_as chunks)) ≡ known_events chunks
unfolding valid_events
valid_events-printed [] = refl
valid_events-printed ((noise, (fetch, status)) ∷ chunks) =
    ap (λ (es : List PhaseEvent). (fetch, status) ∷ es) (valid_events-printed chunks)
valid_events-printed ((noise, (p, status)) ∷ chunks) = cc (valid_events-printed chunks)

-- The parser reads from a script's output, with no `<` in what stands between its markers, the events
-- that the script printed, in order, but for those of `caddy-reload`, which it does not know.
pub parse_phase_stream-output :
    (chunks : List Chunk) (tail : List ℕ)
    → IsQuiet chunks
    → IsNoise tail
    → parse_phase_stream (output (printed_as chunks) tail) ≡ known_events chunks
unfolding parse_phase_stream
parse_phase_stream-output chunks tail q t =
    ap valid_events (markers-output (printed_as chunks) tail (printed_as-IsOutput chunks q) t)
    ∙ valid_events-printed chunks

-- The outcome that is parsed from a script's output, with no `<` in what stands between its markers,
-- is the one that is described for the events that the script printed, but for those of
-- `caddy-reload`.
pub parse_deploy_outcome-output :
    (chunks : List Chunk) (tail : List ℕ)
    → IsQuiet chunks
    → IsNoise tail
    → parse_deploy_outcome (output (printed_as chunks) tail) ≡ described (known_events chunks)
unfolding parse_deploy_outcome
parse_deploy_outcome-output chunks tail q t =
    rw (parse_phase_stream-output chunks tail q t)
      (deploy_outcome-eq-described (known_events chunks))
