-- ===== src/State/Envs.antt =====
-- src/state/envs.ts: the preview environments, by (vmId, appName, branch).
pub mod Laws
use samohost.Prelude.{
  String, Bool, true, ◌&&◌, ◌==◌, Option, none, some, List, filter, find, upsert_by, remove_by,
  if◌then◌else◌,
}
use samohost.Records.Env.{EnvRecord}
use samohost.State.Disk.{Update}

abbrev pub has_identity : String → String → String → EnvRecord → Bool
has_identity vm_id app_name branch e =
    e.vm_id == vm_id && (e.app_name == app_name && e.branch == branch)

abbrev app_matches : Option String → EnvRecord → Bool
app_matches none e = true
app_matches (some app_name) e = e.app_name == app_name

unfoldable pub list_for : String → Option String → List EnvRecord → List EnvRecord
list_for vm_id app_name = filter (λ e. e.vm_id == vm_id && app_matches app_name e)

unfoldable pub get : String → String → String → List EnvRecord → Option EnvRecord
get vm_id app_name branch = find (has_identity vm_id app_name branch)

-- Two records with one identity, as `upsert` compares them.
abbrev pub same_env : EnvRecord → EnvRecord → Bool
same_env r = has_identity r.vm_id r.app_name r.branch

abbrev pub upserted : EnvRecord → List EnvRecord → EnvRecord × List EnvRecord
upserted r = upsert_by (same_env r) (λ old. record r { id = old.id }) r

-- Every branch of `upsert` writes.
unfoldable pub upsert : EnvRecord → Update EnvRecord EnvRecord
upsert r es = let (stored, next) = upserted r es in (stored, some next)

abbrev pub removed : String → String → String → List EnvRecord → Bool × List EnvRecord
removed vm_id app_name branch = remove_by (has_identity vm_id app_name branch)

-- `remove` writes only if it removed something.
unfoldable pub remove : String → String → String → Update EnvRecord Bool
remove vm_id app_name branch es =
    let (done, kept) = removed vm_id app_name branch es in (done, if done then some kept else none)
