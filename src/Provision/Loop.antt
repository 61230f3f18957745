-- ===== src/Provision/Loop.antt =====
-- The loop over the gates: what it keeps, what it has done where the machine is up, and that it ends.
use samohost.Prelude.{
  ℕ, zero, suc, ◌+◌, ◌<◌, ◌≡◌, refl, sym, ◌∙◌, ap, inl, inr, String, Bool, true, false, not, ◌==◌,
  ◌&&◌, Option, none, some, List, trim, ltb, eqb, if◌then◌else◌, arith, Bool-cases, ltb→lt,
}
use mathlib.Core.Path.{subst}
use samohost.Records.Vm.{VmRecord, LifecycleState}
use samohost.State.Vms
use samohost.State.Vms.{stamp}
use samohost.State.Vms.Laws.{upserted-stamp, get-upserted-stamp}
use samohost.Trigger.Decide.{Reply, threw, replied}
use samohost.Provision.Data.{
  ProvisionSpec, ProvisionDeps, ServerInfo, Pin, Work, Gate, server_running, ssh_up,
  cloud_init_complete, Round, again, is_up,
}
use samohost.Provision.{
  stored, with_address, has_target, on_server, on_pin, on_scan, on_probe, round, poll,
}

module _ (spec : ProvisionSpec) (deps : ProvisionDeps) where
  -- The record is the stored one, in a state, with the provider's id and the changes so far.
  pub record IsAt (state : LifecycleState) (id : String)
      (changes : List (LifecycleState × LifecycleState)) (w : Work) : Type 0 where
    pub in_state : w.vm.lifecycle_state ≡ state
    pub owned : w.vm.provider_id ≡ id
    pub persisted : Vms.get w.vm.id w.vms ≡ some w.vm
    pub changed : w.changes ≡ changes

  pub stored-IsAt :
      (state : LifecycleState) (id : String) (changes : List (LifecycleState × LifecycleState))
      (vm : VmRecord) (w : Work)
      → vm.lifecycle_state ≡ state
      → vm.provider_id ≡ id
      → w.changes ≡ changes
      → IsAt state id changes (stored spec deps vm w)
  unfolding stored
  stored-IsAt state id changes vm w s p c =
      let e = upserted-stamp deps.now_iso vm w.vms in
      record {
        in_state = ap (λ (v : VmRecord). v.lifecycle_state) e ∙ s;
        owned = ap (λ (v : VmRecord). v.provider_id) e ∙ p;
        persisted =
            subst (λ (v : VmRecord). Vms.get v.id (Vms.upserted deps.now_iso vm w.vms).1 ≡ some v)
              (sym e) (get-upserted-stamp deps.now_iso vm w.vms);
        changed = c;
      }

  stored-stamp : (vm : VmRecord) (w : Work) → (stored spec deps vm w).vm ≡ stamp deps.now_iso vm
  unfolding stored
  stored-stamp vm w = upserted-stamp deps.now_iso vm w.vms

  pub fingerprint-stored :
      (vm : VmRecord) (w : Work)
      → (stored spec deps vm w).vm.host_key_fingerprint ≡ vm.host_key_fingerprint
  unfolding stored
  fingerprint-stored vm w =
      ap (λ (v : VmRecord). v.host_key_fingerprint) (upserted-stamp deps.now_iso vm w.vms)

  -- The record is the stored form of a record that was scanned: the scan worked and printed something,
  -- the key was picked from what it printed, and its line was planted.
  abbrev pub Pinned : Work → Type 0
  Pinned w =
      (k : ℕ) × (scanned : VmRecord) × (pin : Pin) × ((deps.keyscan k scanned).code ≡ 0)
      × ((trim (deps.keyscan k scanned).stdout == "") ≡ false)
      × (deps.pick_pin (deps.keyscan k scanned).stdout ≡ replied pin)
      × (w.vm ≡ stamp deps.now_iso (record scanned { host_key_fingerprint = pin.fingerprint }))
      × (deps.record_host_key w.vm pin ≡ true)

  -- What holds at a gate.
  abbrev AtGate : Gate → Work → Type 0
  AtGate server_running w = Unit
  AtGate ssh_up w = Unit
  AtGate cloud_init_complete w = Pinned w

  -- The machine was probed and is complete.
  abbrev pub Probed : Work → Type 0
  Probed w =
      (k : ℕ) × ((deps.probe k w.vm).code ≡ 0)
      × (deps.has_sentinel (deps.probe k w.vm).stdout ≡ true)

  module _ (state : LifecycleState) (id : String)
      (changes : List (LifecycleState × LifecycleState)) where
    abbrev RoundKeeps : Round → Type 0
    RoundKeeps (again gate w) = IsAt state id changes w × AtGate gate w
    RoundKeeps (is_up w) = IsAt state id changes w × Pinned w × Probed w

    with_address-IsAt :
        (ipv4 : Option String) (w : Work)
        → IsAt state id changes w
        → IsAt state id changes (with_address spec deps ipv4 w)
    with_address-IsAt none w h = h
    with_address-IsAt (some ip) w h = elim (Bool-cases (ip == w.vm.ip)) [
      | inl old ↦ rw old h
      | inr new ↦
          rw new
            (stored-IsAt state id changes (record w.vm { ip = ip }) w h.in_state h.owned h.changed)
    ]

    at_start : (moves : Bool) (w : Work) → AtGate (if moves then ssh_up else server_running) w
    at_start true w = tt
    at_start false w = tt

    on_server-keeps :
        (reply : Reply ServerInfo) (w : Work)
        → IsAt state id changes w
        → RoundKeeps (on_server spec deps reply w)
    on_server-keeps (threw message) w h = (h, tt)
    on_server-keeps (replied info) w h = (
      with_address-IsAt info.ipv4 w h,
      at_start
          (info.is_running && has_target spec deps info.ipv4 (with_address spec deps info.ipv4 w))
          (with_address spec deps info.ipv4 w),
    )

    on_pin-keeps :
        (k : ℕ) (reply : Reply Pin) (w : Work)
        → (deps.keyscan k w.vm).code ≡ 0
        → (trim (deps.keyscan k w.vm).stdout == "") ≡ false
        → deps.pick_pin (deps.keyscan k w.vm).stdout ≡ reply
        → IsAt state id changes w
        → RoundKeeps (on_pin spec deps reply w)
    on_pin-keeps k (threw message) w code printed e h = (h, tt)
    on_pin-keeps k (replied pin) w code printed e h =
        let vm = record w.vm { host_key_fingerprint = pin.fingerprint } in
        let next = stored spec deps vm w in
        (
          stored-IsAt state id changes vm w h.in_state h.owned h.changed,
          elim (Bool-cases (deps.record_host_key next.vm pin)) [
            | inl planted ↦ rw planted (k, w.vm, pin, code, printed, e, stored-stamp vm w, planted)
            | inr not_planted ↦ rw not_planted tt
          ],
        )

    on_scan-keeps :
        (k : ℕ) (w : Work)
        → IsAt state id changes w
        → RoundKeeps (on_scan spec deps (deps.keyscan k w.vm) w)
    on_scan-keeps k w h =
        let reply = deps.keyscan k w.vm in
        elim (Bool-cases (eqb reply.code 0 && not (trim reply.stdout == ""))) [
          | inl scanned ↦ rw scanned (
              on_pin-keeps k (deps.pick_pin reply.stdout) w (ground (arith, scanned))
                (ground (arith, scanned)) refl h)
          | inr silent ↦ rw silent (h, tt)
        ]

    on_probe-keeps :
        (k : ℕ) (w : Work)
        → IsAt state id changes w
        → Pinned w
        → RoundKeeps (on_probe spec deps (deps.probe k w.vm) w)
    on_probe-keeps k w h pinned =
        let reply = deps.probe k w.vm in
        elim (Bool-cases (eqb reply.code 0 && deps.has_sentinel reply.stdout)) [
          | inl complete ↦
              rw complete (h, pinned, (k, ground (arith, complete), ground (arith, complete)))
          | inr not_yet ↦ rw not_yet (h, pinned)
        ]

    round-keeps :
        (k : ℕ) (gate : Gate) (w : Work)
        → IsAt state id changes w
        → AtGate gate w
        → RoundKeeps (round spec deps k gate w)
    round-keeps k server_running w h at_gate = on_server-keeps (deps.get k w.vm.provider_id) w h
    round-keeps k ssh_up w h at_gate = on_scan-keeps k w h
    round-keeps k cloud_init_complete w h at_gate = on_probe-keeps k w h at_gate

    -- What the loop leaves: a machine that is up has its key pinned and was probed.
    abbrev pub Left : Bool × Work → Type 0
    Left (true, w) = IsAt state id changes w × Pinned w × Probed w
    Left (false, w) = IsAt state id changes w

    -- The loop ends where the clock moves on and the fuel is as large as the time that is left.
    pub poll-Left :
        (fuel deadline k : ℕ) (gate : Gate) (w : Work)
        → ((i : ℕ) → deps.now (suc i) < deps.now (suc (suc i)))
        → 0 < fuel
        → deadline < fuel + deps.now (suc k)
        → IsAt state id changes w
        → AtGate gate w
        → (left : Bool × Work) × (poll spec deps fuel deadline (suc k) gate w ≡ some left)
          × Left left
    unfolding poll
    poll-Left zero deadline k gate w moves some_fuel enough h at_gate =
        absurd (omega (arith, some_fuel))
    poll-Left (suc fuel) deadline k gate w moves some_fuel enough h at_gate =
        elim (Bool-cases (ltb (deps.now (suc k)) deadline)) [
          | inr over ↦ rw (over, poll) ((false, w), refl, h)
          | inl runs ↦
              rw (runs, poll)
                (by_round
                  (λ gate' next.
                    poll-Left fuel deadline (suc k) gate' next moves
                      (omega (arith, enough, ltb→lt _ _ runs)) (omega (arith, enough, moves k)))
                  (round spec deps (suc k) gate w) (round-keeps (suc k) gate w h at_gate))
        ]
      where
        by_round :
            ((gate' : Gate) (next : Work)
              → IsAt state id changes next
              → AtGate gate' next
              → (left : Bool × Work) × (poll spec deps fuel deadline (suc (suc k)) gate' next
                  ≡ some left)
                × Left left)
            → (r : Round) → RoundKeeps r
            → (left : Bool × Work) × ((elim r [
              | is_up next ↦ some (true, next)
              | again gate' next ↦ poll spec deps fuel deadline (suc (suc k)) gate' next
            ])
                ≡ some left)
              × Left left
        by_round rest (is_up next) (at, pinned, probed) = ((true, next), refl, (at, pinned, probed))
        by_round rest (again gate' next) (at, at_gate') = rest gate' next at at_gate'
