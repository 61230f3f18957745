-- ===== src/Trigger/Passes/Once.antt =====
-- Each live machine of the scope is collected once.
use samohost.Prelude.{
  ◌≡◌, refl, sym, ap, ◌∙◌, inl, inr, String, Bool, true, false, not, ◌==◌, ◌||◌, some, List, [],
  ◌∷◌, ◌++◌, any, All, All-append, ◌&&◌, map, arith, Bool-cases, eq_refl, eq_comm,
}
use mathlib.Core.List.{append_assoc, append-nil, Memᴰ}
use mathlib.Core.Path.{subst}
use samohost.Records.App.{AppRecord}
use samohost.Records.Vm.{VmRecord}
use samohost.Trigger.Decide.{Reply, threw, replied}
use samohost.Trigger.Cycle.{is_live}
use samohost.Trigger.Passes.{
  GcSummary, GcPass, add_live, seen_from, live_vm_ids, noted, gc_each, no_calls, gc_pass,
}

abbrev pub holds : String → List String → Bool
holds id ids = any (λ s. s == id) ids

abbrev pub NoRepeat : List String → Type 0
NoRepeat [] = Unit
NoRepeat (id ∷ ids) = (holds id ids ≡ false) × NoRepeat ids

holds-append :
    (id x : String) (ids : List String) → holds id (ids ++ x ∷ []) ≡ holds id ids || (x == id)
holds-append id x [] = ground arith
holds-append id x (y ∷ ids) = ground (arith, holds-append id x ids)

NoRepeat-append :
    (id : String) (ids : List String)
    → NoRepeat ids
    → holds id ids ≡ false
    → NoRepeat (ids ++ id ∷ [])
NoRepeat-append id [] n h = (refl, tt)
NoRepeat-append id (x ∷ ids) (fresh, n) h = (
  ground (arith, holds-append x id ids, eq_comm x id, fresh, h),
  NoRepeat-append id ids n (ground (arith, h)),
)

add_live-NoRepeat :
    (vm : VmRecord) (seen : List String) → NoRepeat seen → NoRepeat (add_live vm seen)
add_live-NoRepeat vm seen n = elim (Bool-cases (is_live vm.lifecycle_state)) [
  | inr resting ↦ rw resting n
  | inl live ↦ elim (Bool-cases (holds vm.id seen)) [
    | inl old ↦ rw (live, old) n
    | inr new ↦ rw (live, new) (NoRepeat-append vm.id seen n new)
  ]
]

seen_from-NoRepeat :
    (seen : List String) (cs : List (AppRecord × VmRecord))
    → NoRepeat seen
    → NoRepeat (seen_from seen cs)
unfolding seen_from
seen_from-NoRepeat seen [] n = n
seen_from-NoRepeat seen ((app, vm) ∷ cs) n =
    seen_from-NoRepeat (add_live vm seen) cs (add_live-NoRepeat vm seen n)

add_live-keeps :
    (id : String) (vm : VmRecord) (seen : List String)
    → holds id seen ≡ true
    → holds id (add_live vm seen) ≡ true
add_live-keeps id vm seen h = ground (arith, holds-append id vm.id seen, h)

seen_from-keeps :
    (id : String) (seen : List String) (cs : List (AppRecord × VmRecord))
    → holds id seen ≡ true
    → holds id (seen_from seen cs) ≡ true
unfolding seen_from
seen_from-keeps id seen [] h = h
seen_from-keeps id seen ((app, vm) ∷ cs) h =
    seen_from-keeps id (add_live vm seen) cs (add_live-keeps id vm seen h)

add_live-adds :
    (vm : VmRecord) (seen : List String)
    → is_live vm.lifecycle_state ≡ true
    → holds vm.id (add_live vm seen) ≡ true
add_live-adds vm seen live = ground (arith, holds-append vm.id vm.id seen, eq_refl vm.id, live)

-- Each collected machine is a live one of the scope.
abbrev pub AllLive : List (AppRecord × VmRecord) → List String → Type 0
AllLive scope = All (λ id. any (λ c. is_live c.1.lifecycle_state && c.1.id == id) scope ≡ true)

add_live-AllLive :
    (vm : VmRecord) (scope : List (AppRecord × VmRecord)) (seen : List String)
    → (is_live vm.lifecycle_state ≡ true
        → any (λ c. is_live c.1.lifecycle_state && c.1.id == vm.id) scope ≡ true)
    → AllLive scope seen
    → AllLive scope (add_live vm seen)
add_live-AllLive vm scope seen listed before = elim (Bool-cases (is_live vm.lifecycle_state)) [
  | inr resting ↦ rw resting before
  | inl live ↦ elim (Bool-cases (holds vm.id seen)) [
    | inl old ↦ rw (live, old) before
    | inr new ↦
        rw (live, new)
          (All-append (λ id. any (λ c. is_live c.1.lifecycle_state && c.1.id == id) scope ≡ true)
            seen (vm.id ∷ []) before (listed live, tt))
  ]
]

-- A machine of an item of the scope is found in it by its id.
any-live :
    (scope : List (AppRecord × VmRecord)) (app : AppRecord) (vm : VmRecord)
    → Memᴰ (app, vm) scope
    → is_live vm.lifecycle_state ≡ true
    → any (λ c. is_live c.1.lifecycle_state && c.1.id == vm.id) scope ≡ true
any-live [] app vm member live = elim member [ ]
any-live (c ∷ cs) app vm (Memᴰ.head e) live =
    subst
      (λ (d : AppRecord × VmRecord).
        any (λ x. is_live x.1.lifecycle_state && x.1.id == vm.id) (d ∷ cs) ≡ true)
      e (ground (arith, live, eq_refl vm.id))
any-live (c ∷ cs) app vm (Memᴰ.tail later) live = ground (arith, any-live cs app vm later live)

seen_from-AllLive :
    (scope cs : List (AppRecord × VmRecord)) (seen : List String)
    → ((c : AppRecord × VmRecord) → Memᴰ c cs → Memᴰ c scope)
    → AllLive scope seen
    → AllLive scope (seen_from seen cs)
unfolding seen_from
seen_from-AllLive scope [] seen members before = before
seen_from-AllLive scope ((app, vm) ∷ cs) seen members before =
    seen_from-AllLive scope cs (add_live vm seen) (λ c later. members c (Memᴰ.tail later))
      (add_live-AllLive vm scope seen (any-live scope app vm (members (app, vm) (Memᴰ.head refl)))
        before)

-- Each item of the scope is of a machine that is not live, or one of the given ids.
abbrev pub Covers : List String → List (AppRecord × VmRecord) → Type 0
Covers ids = All (λ c. not (is_live c.1.lifecycle_state) || holds c.1.id ids ≡ true)

seen_from-Covers :
    (seen : List String) (cs : List (AppRecord × VmRecord)) → Covers (seen_from seen cs) cs
unfolding seen_from
seen_from-Covers seen [] = tt
seen_from-Covers seen ((app, vm) ∷ cs) = (first, seen_from-Covers (add_live vm seen) cs)
  where
    first : not (is_live vm.lifecycle_state) || holds vm.id (seen_from (add_live vm seen) cs) ≡ true
    first = elim (Bool-cases (is_live vm.lifecycle_state)) [
      | inr resting ↦ ground (arith, resting)
      | inl live ↦
          let kept = seen_from-keeps vm.id (add_live vm seen) cs (add_live-adds vm seen live) in
          ground (arith, kept)
    ]

module _ (gc : String → Bool → Reply GcSummary) (reap : Bool) where
  noted-calls :
      (id : String) (reply : Reply GcSummary) (s : GcPass)
      → (noted gc reap id reply s).calls ≡ s.calls
  noted-calls id (threw message) s = refl
  noted-calls id (replied summary) s = refl

  gc_each-calls :
      (ids : List String) (s : GcPass)
      → (gc_each gc reap ids s).calls ≡ s.calls ++ map (λ id. (id, reap)) ids
  unfolding gc_each
  gc_each-calls [] s = sym (append-nil s.calls)
  gc_each-calls (id ∷ ids) s =
      gc_each-calls ids
        (noted gc reap id (gc id reap) (record s { calls = s.calls ++ (id, reap) ∷ [] }))
      ∙ ap (λ (cs : List (String × Bool)). cs ++ map (λ i. (i, reap)) ids)
          (noted-calls id (gc id reap) (record s { calls = s.calls ++ (id, reap) ∷ [] }))
      ∙ append_assoc s.calls ((id, reap) ∷ []) (map (λ i. (i, reap)) ids)

-- Where the pass is asked for and wired, it collects the live machines of the scope and no others, all
-- of them and each once, also where the collection of one of them throws; and it asks for removals
-- exactly outside a dry run.
pub gc_pass-once :
    (dry_run : Bool) (gc : String → Bool → Reply GcSummary) (scope : List (AppRecord × VmRecord))
    → (ids : List String) × ((gc_pass true dry_run (some gc) scope).calls
        ≡ map (λ id. (id, not dry_run)) ids)
      × NoRepeat ids
      × AllLive scope ids
      × Covers ids scope
unfolding gc_pass live_vm_ids
gc_pass-once dry_run gc scope = (
  live_vm_ids scope,
  gc_each-calls gc (not dry_run) (seen_from [] scope) no_calls,
  seen_from-NoRepeat [] scope tt,
  seen_from-AllLive scope scope [] (λ c member. member) tt,
  seen_from-Covers [] scope,
)
