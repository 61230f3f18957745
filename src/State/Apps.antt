-- ===== src/State/Apps.antt =====
-- src/state/apps.ts: the apps, by (vmId, name). `upsert` throws on an unsafe service account, and
-- `validate` refuses a document that holds one.
pub mod Laws
use samohost.Prelude.{
  String, Bool, true, false, ◌&&◌, ◌==◌, Option, none, some, List, find, all, upsert_by, remove_by,
  if◌then◌else◌,
}
use samohost.LinuxUser.{UserError, optional_linux_app_user_error}
use samohost.Records.App.{AppRecord}
use samohost.State.Disk.{Update}

abbrev pub has_identity : String → String → AppRecord → Bool
has_identity vm_id name a = a.vm_id == vm_id && a.name == name

unfoldable pub get : String → String → List AppRecord → Option AppRecord
get vm_id name = find (has_identity vm_id name)

unfoldable pub get_by_id : String → List AppRecord → Option AppRecord
get_by_id id = find (λ a. a.id == id)

-- The store's test of a record that it reads.
abbrev is_valid_app : AppRecord → Bool
is_valid_app a = elim (optional_linux_app_user_error a.app_user) [ none ↦ true | some _ ↦ false ]

-- The part of `validateAppsFile` that is not fixed by the types.
unfoldable pub validate_apps_file : List AppRecord → Option (List AppRecord)
validate_apps_file apps = if all is_valid_app apps then some apps else none

pub data Upserted : Type 0 where
  stored : AppRecord → Upserted
  rejected : UserError → Upserted

abbrev pub same_app : AppRecord → AppRecord → Bool
same_app r = has_identity r.vm_id r.name

abbrev pub upserted : AppRecord → List AppRecord → AppRecord × List AppRecord
upserted r = upsert_by (same_app r) (λ old. record r { id = old.id }) r

abbrev pub upsert_checked : AppRecord → Option UserError → Update AppRecord Upserted
upsert_checked r (some e) apps = (rejected e, none)
upsert_checked r none apps = let (a, next) = upserted r apps in (stored a, some next)

unfoldable pub upsert : AppRecord → Update AppRecord Upserted
upsert r = upsert_checked r (optional_linux_app_user_error r.app_user)

unfoldable pub remove : String → String → Update AppRecord Bool
remove vm_id name apps =
    let (removed, kept) = remove_by (has_identity vm_id name) apps in
    (removed, if removed then some kept else none)
