-- ===== src/Deploy/Heal/Seen.antt =====
-- The store of apps without the stamps of a heal.
use mathlib.Core.Option
use samohost.Prelude.{
  ◌≡◌, sym, ◌∙◌, ap, inl, inr, String, Option, none, some, List, All, arith, Bool-cases, eq_iff,
  stored_for,
}
use mathlib.Core.Path.{subst}
use samohost.Records.App.{AppRecord}
use samohost.State.Apps
use samohost.State.Apps.{has_identity}
use samohost.State.Apps.Laws.{with_id, get-upserted, get-upserted_self}
use samohost.Deploy.Heal.{Looped, on, threw_unsafe, Healed, ran, threw}

-- A record without the two stamps of a heal.
abbrev pub unstamped : AppRecord → AppRecord
unstamped app = record app { last_heal_at = none; generator_sha = none }

-- What the store has under an identity, without the stamps.
abbrev pub seen : String → String → List AppRecord → Option AppRecord
seen vm_id name apps = Option.map unstamped (Apps.get vm_id name apps)

-- Each record is found under its identity.
abbrev pub Found : List AppRecord → List AppRecord → Type 0
Found apps = All (λ a. seen a.vm_id a.name apps ≡ some (unstamped a))

stored-unstamped :
    (r : AppRecord) (found : Option AppRecord)
    → Option.map unstamped found ≡ some (unstamped r)
    → unstamped (stored_for (with_id r) r found) ≡ unstamped r
stored-unstamped r none h = absurd (ground (arith, h))
stored-unstamped r (some old) h =
    let same_id = ap (λ (o : Option AppRecord). elim o [ none ↦ r.id | some x ↦ x.id ]) h in
    ap (λ id. record (unstamped r) { id = id }) same_id

pub seen-upserted :
    (r : AppRecord) (apps : List AppRecord) (vm_id name : String)
    → seen r.vm_id r.name apps ≡ some (unstamped r)
    → seen vm_id name (Apps.upserted r apps).1 ≡ seen vm_id name apps
seen-upserted r apps vm_id name h = elim (Bool-cases (has_identity vm_id name r)) [
  | inr other ↦
      ap (λ (o : Option AppRecord). Option.map unstamped o) (get-upserted r apps vm_id name other).2
  | inl same ↦
      let v = (eq_iff r.vm_id vm_id).0 (ground (arith, same)) in
      let n = (eq_iff r.name name).0 (ground (arith, same)) in
      subst (λ (x : String). seen x name (Apps.upserted r apps).1 ≡ seen x name apps) v
        (subst (λ (y : String). seen r.vm_id y (Apps.upserted r apps).1 ≡ seen r.vm_id y apps) n
          (ap (λ (o : Option AppRecord). Option.map unstamped o) (get-upserted_self r apps)
            ∙ ap some (stored-unstamped r (Apps.get r.vm_id r.name apps) h)
            ∙ sym h))
]

abbrev pub apps_of : Looped → List AppRecord
apps_of (on s) = s.apps
apps_of (threw_unsafe e s) = s.apps

-- The store after a heal.
abbrev pub apps_after : Healed → List AppRecord → List AppRecord
apps_after (ran code s) apps = s.apps
apps_after (threw e s) apps = s.apps
apps_after _ apps = apps
