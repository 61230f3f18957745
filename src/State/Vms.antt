-- ===== src/State/Vms.antt =====
-- src/state/store.ts: the virtual machines, by id. The clock of `upsert` is an argument.
pub mod Laws
use samohost.Prelude.{
  String, Bool, ◌==◌, Option, none, some, List, find, upsert_by, remove_by, if◌then◌else◌,
}
use samohost.Records.Vm.{VmRecord}
use samohost.State.Disk.{Update}

abbrev has_id : String → VmRecord → Bool
has_id id r = r.id == id

unfoldable pub get : String → List VmRecord → Option VmRecord
get id = find (has_id id)

abbrev pub stamp : String → VmRecord → VmRecord
stamp now r = record r { updated_at = now }

abbrev pub upserted : String → VmRecord → List VmRecord → VmRecord × List VmRecord
upserted now r = upsert_by (has_id r.id) (λ _. stamp now r) (stamp now r)

unfoldable pub upsert : String → VmRecord → Update VmRecord VmRecord
upsert now r rs = let (stored, next) = upserted now r rs in (stored, some next)

unfoldable pub remove : String → Update VmRecord Bool
remove id rs =
    let (removed, kept) = remove_by (has_id id) rs in (removed, if removed then some kept else none)
