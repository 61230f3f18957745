-- ===== src/State/Domains.antt =====
-- src/state/domains.ts: the custom domains, by fqdn.
use samohost.Prelude.{
  String, Bool, ◌==◌, Option, none, some, List, find, upsert_by, remove_by, if◌then◌else◌,
}
use samohost.State.Disk.{Update}

pub record DomainRecord : Type 0 where
  pub id : String
  pub fqdn : String
  pub app_name : String
  pub vm_id : String
  pub custom_hostname_id : Option String
  pub ssl_status : Option String
  pub hostname_status : Option String
  pub created_at : String
  pub updated_at : Option String

abbrev has_fqdn : String → DomainRecord → Bool
has_fqdn fqdn d = d.fqdn == fqdn

unfoldable pub get : String → List DomainRecord → Option DomainRecord
get fqdn = find (has_fqdn fqdn)

abbrev upserted : DomainRecord → List DomainRecord → DomainRecord × List DomainRecord
upserted r = upsert_by (has_fqdn r.fqdn) (λ old. record r { id = old.id }) r

unfoldable pub upsert : DomainRecord → Update DomainRecord DomainRecord
upsert r ds = let (stored, next) = upserted r ds in (stored, some next)

unfoldable pub remove : String → Update DomainRecord Bool
remove fqdn ds =
    let (removed, kept) = remove_by (has_fqdn fqdn) ds in
    (removed, if removed then some kept else none)
