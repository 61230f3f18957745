-- ===== src/State/Apps/Laws.antt =====
-- The app store: an accepted upsert keeps the document readable, and is found again.
use samohost.Prelude.{
  find-holds, eq_iff, String, false, ◌≡◌, ◌∙◌, ap, sym, eq_refl, eq_apart, none, some, List, [],
  arith, stored_for, upsert_by-list, upsert_by-stored, all-replace_or_push,
  find-replace_or_push_self, find-replace_or_push_ne,
}
use samohost.LinuxUser.{optional_linux_app_user_error}
use samohost.Records.App.{AppRecord}
use samohost.State.Atomic.{Files, read_doc, loaded}
use samohost.State.Disk.{Codec, on_disk, read_doc-on_disk}
use samohost.State.Apps.{
  has_identity, same_app, get, is_valid_app, validate_apps_file, stored, upsert, upserted,
}

abbrev pub with_id : AppRecord → AppRecord → AppRecord
with_id r old = record r { id = old.id }

-- An accepted upsert into a document that `validate` accepts gives one that it accepts.
pub validate_apps_file-upserted :
    (r : AppRecord) (apps : List AppRecord)
    → optional_linux_app_user_error r.app_user ≡ none
    → validate_apps_file apps ≡ some apps
    → validate_apps_file (upserted r apps).1 ≡ some (upserted r apps).1
unfolding validate_apps_file
validate_apps_file-upserted r apps ok h = rw (upsert_by-list (same_app r) (with_id r) r apps) (
    rw (
      all-replace_or_push (same_app r) (with_id r) r apps is_valid_app (λ x. rw (ok, is_valid_app))
        (rw (ok, is_valid_app)) (ground arith)))

abbrev pub IsOther : AppRecord → String → String → Type 0
IsOther r vm_id name = has_identity vm_id name r ≡ false

pub get-upserted_self :
    (r : AppRecord) (apps : List AppRecord)
    → get r.vm_id r.name (upserted r apps).1
      ≡ some (stored_for (with_id r) r (get r.vm_id r.name apps))
unfolding get
get-upserted_self r apps =
    rw (upsert_by-list (same_app r) (with_id r) r apps) (
      find-replace_or_push_self (same_app r) (with_id r) r (λ x _. simp eq_refl) (simp eq_refl)
        apps)

-- On the list: the written record is found under its identity, with the id of the record that it
-- replaced, and every other identity is found as before.
pub get-upserted :
    (r : AppRecord) (apps : List AppRecord) (vm_id name : String)
    → IsOther r vm_id name
    → (get r.vm_id r.name (upserted r apps).1 ≡ some (upserted r apps).0)
      × ((upserted r apps).0 ≡ stored_for (with_id r) r (get r.vm_id r.name apps))
      × (get vm_id name (upserted r apps).1 ≡ get vm_id name apps)
unfolding get
get-upserted r apps vm_id name o =
    let list = upsert_by-list (same_app r) (with_id r) r apps in
    let stored = upsert_by-stored (same_app r) (with_id r) r apps in
    (
      get-upserted_self r apps ∙ ap some (sym stored),
      stored,
      rw list (
          find-replace_or_push_ne (same_app r) (with_id r) r (has_identity vm_id name)
            (λ x h.
              (ground (arith, eq_apart r.vm_id vm_id x.vm_id, eq_apart r.name name x.name), o))
            o apps),
    )

-- On the disk: if the document is readable and valid and the service account is accepted, `upsert`
-- returns the record, with the id of the one that it replaces if there is one; the next read of the
-- document succeeds, finds that record under its identity, and finds under any other identity what
-- was there before; the codec parses what it prints, up to the store's own validation.
pub get-upsert-on_disk :
    {Raw : Type 0} (c : Codec Raw AppRecord) (fs : Files Raw) (r : AppRecord)
    (apps : List AppRecord) (vm_id name : String)
    → IsOther r vm_id name
    → ((written : List AppRecord) → c.try_parse (c.stringify written) ≡ validate_apps_file written)
    → read_doc c.try_parse [] fs ≡ loaded apps
    → validate_apps_file apps ≡ some apps
    → optional_linux_app_user_error r.app_user ≡ none
    → ((on_disk c (upsert r) fs).0
        ≡ loaded (stored (stored_for (with_id r) r (get r.vm_id r.name apps))))
      × ((next : List AppRecord) × (read_doc c.try_parse [] (on_disk c (upsert r) fs).1
            ≡ loaded next)
          × (get r.vm_id r.name next ≡ some (stored_for (with_id r) r (get r.vm_id r.name apps)))
          × (get vm_id name next ≡ get vm_id name apps))
unfolding upsert
get-upsert-on_disk c fs r apps vm_id name other json h v ok =
    let (found, kept_id, rest) = get-upserted r apps vm_id name other in
    (
      returned ∙ ap (λ a. loaded (stored a)) kept_id,
      (
        (upserted r apps).1,
        read_doc-on_disk c (upsert r) fs apps (upserted r apps).1 h (rw ok)
            (json _ ∙ validate_apps_file-upserted r apps ok v),
        get-upserted_self r apps,
        rest,
      ),
    )
  where
    returned : (on_disk c (upsert r) fs).0 ≡ loaded (stored (upserted r apps).0)
    returned = unfold on_disk in rw h (rw ok)

-- The identity of a found record is the one that was asked for.
pub get-identity :
    (vm_id name : String) (apps : List AppRecord) {a : AppRecord}
    → get vm_id name apps ≡ some a
    → (a.vm_id ≡ vm_id) × (a.name ≡ name)
unfolding get
get-identity vm_id name apps {a} h =
    let held = find-holds (has_identity vm_id name) apps h in
    (ground (arith, eq_iff a.vm_id vm_id), ground (arith, eq_iff a.name name))
