-- ===== src/State/Disk.antt =====
-- The way each store of src/state works on its document: `read`, change the list of records, and
-- `write` where the operation writes. The operations themselves are functions on the list.
use samohost.Prelude.{◌≡◌, Option, none, some, List}
use samohost.State.Atomic.{Files, ReadResult, loaded, corrupt, read_doc, write_doc}
use samohost.State.Atomic.Crash.{read_doc-write_doc}

-- An operation's result, and the list that it writes, if it writes.
abbrev pub Update {ℓ} : Type ℓ → Type ℓ → Type ℓ
Update R A = List R → A × Option (List R)

-- JSON.parse with the store's validation, JSON.stringify, and the text of a truncated file.
pub record Codec {ℓ} (Raw R : Type ℓ) : Type ℓ where
  pub try_parse : Raw → Option (List R)
  pub stringify : List R → Raw
  pub empty : Raw

module _ {ℓ} {Raw R : Type ℓ} (c : Codec Raw R) where
  abbrev written : Option (List R) → Files Raw → Files Raw
  written none fs = fs
  written (some rs) fs = write_doc c.empty (c.stringify rs) fs

module _ {ℓ} {Raw R A : Type ℓ} (c : Codec Raw R) where
  abbrev updated : Update R A → ReadResult (List R) → Files Raw → ReadResult A × Files Raw
  updated op corrupt fs = (corrupt, fs)
  updated op (loaded rs) fs = let (a, w) = op rs in (loaded a, written c w fs)

  -- One mutating method. The fallback of every store is the empty list.
  unfoldable pub on_disk : Update R A → Files Raw → ReadResult A × Files Raw
  on_disk op fs = updated op (read_doc c.try_parse List.[] fs) fs

  -- The next read sees what an operation wrote.
  pub read_doc-on_disk :
      (op : Update R A) (fs : Files Raw) (rs next : List R)
      → read_doc c.try_parse List.[] fs ≡ loaded rs
      → (op rs).1 ≡ some next
      → c.try_parse (c.stringify next) ≡ some next
      → read_doc c.try_parse List.[] (on_disk op fs).1 ≡ loaded next
  unfolding on_disk
  read_doc-on_disk op fs rs next h w ok =
      rw (h, updated, w)
        (read_doc-write_doc c.try_parse List.[] next c.empty (c.stringify next) fs ok).0
