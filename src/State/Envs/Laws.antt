-- ===== src/State/Envs/Laws.antt =====
-- The environment store is a map from (vmId, appName, branch) to records with a stable id.
use samohost.Prelude.{
  String, true, false, ◌≡◌, ◌∙◌, ap, sym, eq_iff, eq_refl, none, some, List, arith, stored_for,
  upsert_by-list, upsert_by-stored, find-replace_or_push_self, find-replace_or_push_ne, Distinct,
  Distinct-replace_or_push, Distinct-remove_by, find-remove_by_self, find-remove_by_ne,
  remove_by-flag, eq_comm, eq_transfer,
}
use samohost.Records.Env.{EnvRecord}
use samohost.State.Envs.{has_identity, same_env, get, removed, remove, upserted}

abbrev pub with_id : EnvRecord → EnvRecord → EnvRecord
with_id r old = record r { id = old.id }

has_identity_self : (r : EnvRecord) → has_identity r.vm_id r.app_name r.branch r ≡ true
has_identity_self r = simp eq_refl

-- An identity that differs from `r`'s in some part.
abbrev pub IsOther : EnvRecord → String → String → String → Type 0
IsOther r vm_id app_name branch = has_identity vm_id app_name branch r ≡ false

other-IsOther :
    (r x : EnvRecord) (vm_id app_name branch : String)
    → IsOther r vm_id app_name branch
    → has_identity r.vm_id r.app_name r.branch x ≡ true
    → has_identity vm_id app_name branch x ≡ false
other-IsOther r x vm_id app_name branch o h = ground (
  arith,
  eq_iff r.vm_id vm_id,
  eq_iff r.app_name app_name,
  eq_iff r.branch branch,
  eq_iff x.vm_id vm_id,
  eq_iff x.app_name app_name,
  eq_iff x.branch branch,
  eq_iff x.vm_id r.vm_id,
  eq_iff x.app_name r.app_name,
  eq_iff x.branch r.branch,
)

-- After an upsert the identity of the record is found, with the id of the record that it replaced.
pub get-upserted_self :
    (r : EnvRecord) (es : List EnvRecord)
    → get r.vm_id r.app_name r.branch (upserted r es).1
      ≡ some (stored_for (with_id r) r (get r.vm_id r.app_name r.branch es))
unfolding get
get-upserted_self r es =
    let mine = has_identity r.vm_id r.app_name r.branch in
    rw (upsert_by-list mine (with_id r) r es) (
      find-replace_or_push_self mine (with_id r) r (λ x _. has_identity_self (with_id r x))
        (has_identity_self r) es)

-- After an upsert the record is found under its identity, and it is the one that was returned: the
-- given one, with the id of the record that it replaced, if there was one. Every other identity is
-- found as before.
pub get-upsert :
    (r : EnvRecord) (es : List EnvRecord) (vm_id app_name branch : String)
    → IsOther r vm_id app_name branch
    → (get r.vm_id r.app_name r.branch (upserted r es).1 ≡ some (upserted r es).0)
      × ((upserted r es).0 ≡ stored_for (with_id r) r (get r.vm_id r.app_name r.branch es))
      × (get vm_id app_name branch (upserted r es).1 ≡ get vm_id app_name branch es)
unfolding get
get-upsert r es vm_id app_name branch o =
    let mine = has_identity r.vm_id r.app_name r.branch in
    let stored = upsert_by-stored mine (with_id r) r es in
    (
      get-upserted_self r es ∙ ap some (sym stored),
      stored,
      rw (upsert_by-list mine (with_id r) r es) (
          find-replace_or_push_ne mine (with_id r) r (has_identity vm_id app_name branch)
            (λ x h. (other-IsOther r x vm_id app_name branch o h, o)) o es),
    )

same_env_comm : (x y : EnvRecord) → same_env x y ≡ same_env y x
same_env_comm x y =
    rw (eq_comm y.vm_id x.vm_id, eq_comm y.app_name x.app_name, eq_comm y.branch x.branch)

same_env-with_id :
    (r x y : EnvRecord) → same_env r x ≡ true → same_env (with_id r x) y ≡ same_env x y
same_env-with_id r x y h = ground (
  arith,
  eq_transfer x.vm_id r.vm_id y.vm_id,
  eq_transfer x.app_name r.app_name y.app_name,
  eq_transfer x.branch r.branch y.branch,
)

-- No two records of the list have one identity.
abbrev pub IsKeyed : List EnvRecord → Type 0
IsKeyed = Distinct same_env

-- Neither an upsert nor a removal leaves two records with one identity.
pub IsKeyed-kept :
    (r : EnvRecord) (vm_id app_name branch : String) (es : List EnvRecord)
    → IsKeyed es
    → IsKeyed (upserted r es).1 × IsKeyed (removed vm_id app_name branch es).1
IsKeyed-kept r vm_id app_name branch es k = (
  rw (upsert_by-list (same_env r) (with_id r) r es)
      (Distinct-replace_or_push same_env same_env_comm (with_id r) r (same_env-with_id r) es k),
  Distinct-remove_by same_env (has_identity vm_id app_name branch) es k,
)

-- After a removal the identity is gone, any other is found as before, and the result says whether
-- there was a record; the document is written only if there was.
pub get-remove :
    (r : EnvRecord) (vm_id app_name branch : String) (es : List EnvRecord)
    → IsOther r vm_id app_name branch
    → (get r.vm_id r.app_name r.branch (removed r.vm_id r.app_name r.branch es).1 ≡ none)
      × (get vm_id app_name branch (removed r.vm_id r.app_name r.branch es).1
          ≡ get vm_id app_name branch es)
      × (remove r.vm_id r.app_name r.branch es ≡ (elim (get r.vm_id r.app_name r.branch es) [
        | none ↦ (false, none)
        | some _ ↦ (true, some (removed r.vm_id r.app_name r.branch es).1)
      ]))
unfolding get remove
get-remove r vm_id app_name branch es o = (
  find-remove_by_self (same_env r) es,
  find-remove_by_ne (same_env r) (has_identity vm_id app_name branch)
      (λ x. other-IsOther r x vm_id app_name branch o) es,
  ground (arith, remove_by-flag (same_env r) es),
)
