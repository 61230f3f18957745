-- ===== src/State/Atomic.antt =====
-- src/state/atomic.ts: one JSON document with its `.tmp` and `.bak` files.
-- The file system is the contents of the three paths. A text is of any type `Raw`; `try_parse` is
-- JSON.parse with the store's `validate`, and `stringify` is JSON.stringify.
pub mod Crash
use samohost.Prelude.{Option, none, some, List, [], ◌∷◌, ◌++◌}

pub record Files {ℓ} (Raw : Type ℓ) : Type ℓ where
  pub primary : Option Raw
  pub tmp : Option Raw
  pub bak : Option Raw

pub data ReadResult {ℓ} (T : Type ℓ) : Type ℓ where
  loaded : T → ReadResult T
  -- `state file is corrupt and unrecoverable`
  corrupt : ReadResult T

abbrev or_else {ℓ} : {T : Type ℓ} → Option T → ReadResult T → ReadResult T
or_else none other = other
or_else (some v) other = loaded v

module _ {ℓ κ} {Raw : Type ℓ} {T : Type κ} (try_parse : Raw → Option T) (fallback : T) where
  abbrev parse_file : Option Raw → Option T
  parse_file none = none
  parse_file (some text) = try_parse text

  abbrev read_files : Option Raw → Option Raw → ReadResult T
  read_files (some text) bak = or_else (try_parse text) (or_else (parse_file bak) corrupt)
  read_files none bak = or_else (parse_file bak) (loaded fallback)

  unfoldable pub read_doc : Files Raw → ReadResult T
  read_doc fs = read_files fs.primary fs.bak

-- The calls of `writeDoc` that change a file. `openSync(tmp, "w")` leaves an empty text.
pub data FileOp {ℓ} (Raw : Type ℓ) : Type ℓ where
  copy_to_bak : FileOp Raw
  open_tmp : Raw → FileOp Raw
  write_tmp : Raw → FileOp Raw
  rename_tmp : FileOp Raw

module _ {ℓ} {Raw : Type ℓ} where
  unfoldable pub run_op : Files Raw → FileOp Raw → Files Raw
  run_op fs copy_to_bak = record fs { bak = fs.primary }
  run_op fs (open_tmp empty) = record fs { tmp = some empty }
  run_op fs (write_tmp text) = record fs { tmp = some text }
  run_op fs rename_tmp = record fs { primary = fs.tmp; tmp = none }

  unfoldable pub run_ops : Files Raw → List (FileOp Raw) → Files Raw
  unfolding run_op
  run_ops fs [] = fs
  run_ops fs (op ∷ ops) = run_ops (run_op fs op) ops

  -- What a file holds if the process dies inside the call: a copy or a write leaves any text in its
  -- target; the rename is atomic, so it has not happened.
  unfoldable pub torn_op : Raw → Files Raw → FileOp Raw → Files Raw
  torn_op garbage fs copy_to_bak = record fs { bak = some garbage }
  torn_op garbage fs (open_tmp empty) = record fs { tmp = some garbage }
  torn_op garbage fs (write_tmp text) = record fs { tmp = some garbage }
  torn_op garbage fs rename_tmp = fs

  abbrev backup_ops : Option Raw → List (FileOp Raw)
  backup_ops none = []
  backup_ops (some _) = copy_to_bak ∷ []

  abbrev pub write_ops : Raw → Raw → Files Raw → List (FileOp Raw)
  write_ops empty text fs =
      backup_ops fs.primary ++ open_tmp empty ∷ write_tmp text ∷ rename_tmp ∷ []

  -- The state after a whole `writeDoc`.
  unfoldable pub write_doc : Raw → Raw → Files Raw → Files Raw
  unfolding run_ops
  write_doc empty text fs = run_ops fs (write_ops empty text fs)

-- The states in which a crash can leave the files: between two calls, or inside one.
pub data Interrupted {ℓ} {Raw : Type ℓ} : List (FileOp Raw) → Files Raw → Files Raw → Type ℓ where
  stopped : {ops : List (FileOp Raw)} {fs : Files Raw} → Interrupted ops fs fs
  torn :
      {op : FileOp Raw} {ops : List (FileOp Raw)} {fs : Files Raw} (garbage : Raw)
      → Interrupted (op ∷ ops) fs (torn_op garbage fs op)
  went_on :
      {op : FileOp Raw} {ops : List (FileOp Raw)} {fs fs' : Files Raw}
      → Interrupted ops (run_op fs op) fs'
      → Interrupted (op ∷ ops) fs fs'
