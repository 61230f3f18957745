-- ===== src/Examples/Stores.antt =====
-- The stores and the tables at concrete inputs.
use samohost.Prelude.{
  ℕ, zero, suc, ◌≤◌, ◌≡◌, ◌≢◌, ◌⊎◌, refl, true, Option, none, some, List, [], ◌∷◌, arith,
}
use samohost.Records.Vm.{creating, ready, destroyed}
use samohost.Records.App.{AppRecord}
use samohost.Lifecycle.{can_transition}
use samohost.Lifecycle.Paths.{History, reclaimable}
use samohost.LinuxUser.{linux_app_user_error, optional_linux_app_user_error}
use samohost.State.Atomic.{
  Files, loaded, corrupt, read_doc, write_ops, Interrupted, torn, torn_op, copy_to_bak,
}
use samohost.State.Atomic.Crash.{write_doc-crash_safe, write_doc-damaged}
use samohost.State.Disk.{Codec, on_disk}
use samohost.State.Apps
use samohost.State.Apps.{validate_apps_file, stored}
use samohost.State.Apps.Laws.{get-upsert-on_disk}
use samohost.Preview.Ports.{allocate_port, allocate_from, default_pool}
use samohost.Examples.Data.{plain_app, released_app}

reclaimable_example :
    ((n : ℕ) × (n ≤ 2) × History ready n destroyed) × (can_transition destroyed creating ≢ true)
reclaimable_example = reclaimable ready creating (λ h. ground (arith, h)) (λ h. ground (arith, h))

-- A document is a number; the text 0 is not well-formed.
abbrev parse : ℕ → Option ℕ
parse zero = none
parse (suc n) = some n

abbrev before : Files ℕ
before = record { primary = some 5; tmp = none; bak = none }

abbrev damaged : Files ℕ
damaged = record { primary = some 0; tmp = none; bak = some 5 }

abbrev torn_copy : Files ℕ
torn_copy = record { primary = some 5; tmp = none; bak = some 0 }

write_doc-crash_safe_example :
    (read_doc parse 0 torn_copy ≡ loaded 4) ⊎ (read_doc parse 0 torn_copy ≡ loaded 7)
unfolding read_doc torn_op
write_doc-crash_safe_example =
    write_doc-crash_safe parse 0 0 8 4 7 before torn_copy refl (4, refl) refl
      (torn {op = copy_to_bak} 0)

write_doc-damaged_example :
    (read_doc parse 0 damaged ≡ loaded 4)
    × ((fs : Files ℕ) × Interrupted (write_ops 0 8 damaged) damaged fs
        × (read_doc parse 0 fs ≡ corrupt))
write_doc-damaged_example = write_doc-damaged parse 0 4 0 8 0 5 damaged refl refl refl refl

abbrev one : ℕ
one = 1

-- A text is what it parses to.
abbrev app_codec : Codec (List AppRecord) AppRecord
app_codec = record { try_parse = validate_apps_file; stringify = λ rs. rs; empty = [] }

abbrev other_app : AppRecord
other_app = record plain_app { id = "app-2"; spec = record plain_app.spec { name = "blog" } }

abbrev two_apps : List AppRecord
two_apps = other_app ∷ plain_app ∷ []

abbrev app_files : Files (List AppRecord)
app_files = record { primary = some two_apps; tmp = none; bak = none }

get-upsert-on_disk_example :
    ((on_disk app_codec (Apps.upsert released_app) app_files).0 ≡ loaded (stored released_app))
    × ((next : List AppRecord) × (read_doc validate_apps_file []
            (on_disk app_codec (Apps.upsert released_app) app_files).1
          ≡ loaded next)
        × (Apps.get released_app.vm_id released_app.name next ≡ some released_app)
        × (Apps.get other_app.vm_id other_app.name next ≡ some other_app))
unfolding read_doc linux_app_user_error optional_linux_app_user_error validate_apps_file Apps.get
get-upsert-on_disk_example =
    get-upsert-on_disk app_codec app_files released_app two_apps other_app.vm_id other_app.name refl
      (λ _. refl) refl refl refl

allocates_3101 : allocate_port (3100 ∷ 3102 ∷ []) default_pool ≡ some 3101
unfolding allocate_port allocate_from
allocates_3101 = refl
