-- ===== src/State/Atomic/Crash.antt =====
-- What a reader finds after a crash inside `writeDoc`.
use samohost.Prelude.{◌≡◌, refl, ap, ◌∙◌, ◌⊎◌, inl, inr, Option, none, some, [], ◌∷◌, Option-cases}
use samohost.State.Atomic.{
  Files, loaded, corrupt, read_doc, copy_to_bak, open_tmp, write_tmp, rename_tmp, run_op, torn_op,
  write_ops, write_doc, Interrupted, stopped, torn, went_on,
}

module _ {ℓ κ} {Raw : Type ℓ} {T : Type κ} (try_parse : Raw → Option T) (fallback : T)
    (empty text : Raw) (new : T) (parsed : try_parse text ≡ some new) where
  abbrev pub OldOrNew : T → Files Raw → Type κ
  OldOrNew old fs =
      (read_doc try_parse fallback fs ≡ loaded old) ⊎ (read_doc try_parse fallback fs ≡ loaded new)

  rename_safe :
      {old : T} (fs fs' : Files Raw)
      → fs.tmp ≡ some text
      → read_doc try_parse fallback fs ≡ loaded old
      → Interrupted (rename_tmp ∷ []) fs fs'
      → OldOrNew old fs'
  unfolding read_doc run_op torn_op
  rename_safe fs fs' t h stopped = inl h
  rename_safe fs fs' t h (torn g) = inl h
  rename_safe fs fs' t h (went_on stopped) = inr (rw (t, parsed))

  tmp_safe :
      {old : T} (fs fs' : Files Raw)
      → read_doc try_parse fallback fs ≡ loaded old
      → Interrupted (open_tmp empty ∷ write_tmp text ∷ rename_tmp ∷ []) fs fs'
      → OldOrNew old fs'
  unfolding read_doc run_op torn_op
  tmp_safe fs fs' h stopped = inl h
  tmp_safe fs fs' h (torn g) = inl h
  tmp_safe fs fs' h (went_on stopped) = inl h
  tmp_safe fs fs' h (went_on (torn g)) = inl h
  tmp_safe fs fs' h (went_on (went_on r)) = rename_safe (record fs { tmp = some text }) fs' refl h r

  backup_safe :
      {old : T} (good : Raw) (fs fs' : Files Raw)
      → fs.primary ≡ some good
      → try_parse good ≡ some old
      → Interrupted (copy_to_bak ∷ open_tmp empty ∷ write_tmp text ∷ rename_tmp ∷ []) fs fs'
      → OldOrNew old fs'
  unfolding read_doc run_op torn_op
  backup_safe good fs fs' p ok stopped = inl (rw (p, ok))
  backup_safe good fs fs' p ok (torn g) = inl (rw (p, ok))
  backup_safe good fs fs' p ok (went_on r) =
      tmp_safe (record fs { bak = fs.primary }) fs' (rw (p, ok)) r

module _ {ℓ κ} {Raw : Type ℓ} {T : Type κ} (try_parse : Raw → Option T) where
  -- The primary file is absent, or holds a document.
  abbrev pub Undamaged : Option Raw → Type κ
  Undamaged none = Unit
  Undamaged (some raw) = (v : T) × (try_parse raw ≡ some v)

-- A crash anywhere inside `writeDoc`, also in the middle of a copy or a write, loses nothing: if
-- the primary file was absent or well-formed and the document read as `old`, then afterwards it
-- reads as `old` or as the new document.
pub write_doc-crash_safe {ℓ κ} :
    {Raw : Type ℓ} {T : Type κ} (try_parse : Raw → Option T) (fallback : T) (empty text : Raw)
    (old new : T) (fs fs' : Files Raw)
    → try_parse text ≡ some new
    → Undamaged try_parse fs.primary
    → read_doc try_parse fallback fs ≡ loaded old
    → Interrupted (write_ops empty text fs) fs fs'
    → (read_doc try_parse fallback fs' ≡ loaded old)
      ⊎ (read_doc try_parse fallback fs' ≡ loaded new)
unfolding read_doc
write_doc-crash_safe try_parse fallback empty text old new fs fs' parsed sound h r =
    go fs.primary refl sound r
  where
    go :
        (o : Option _)
        → fs.primary ≡ o
        → Undamaged try_parse o
        → Interrupted (write_ops empty text (record fs { primary = o })) fs fs'
        → OldOrNew try_parse fallback empty text new parsed old fs'
    go none e s r = tmp_safe try_parse fallback empty text new parsed fs fs' h r
    go (some good) e (v, ok) r =
        backup_safe try_parse fallback empty text new parsed good fs fs' e
          (ok ∙ ap some (cc (e, ok, h))) r

abbrev pub kept_backup {ℓ} : {Raw : Type ℓ} → Files Raw → Option Raw
kept_backup fs = elim fs.primary [ none ↦ fs.bak | some raw ↦ some raw ]

-- A whole `writeDoc` is read back, and keeps the previous primary file, if there was one, as the
-- backup.
pub read_doc-write_doc {ℓ κ} :
    {Raw : Type ℓ} {T : Type κ} (try_parse : Raw → Option T) (fallback new : T) (empty text : Raw)
    (fs : Files Raw)
    → try_parse text ≡ some new
    → (read_doc try_parse fallback (write_doc empty text fs) ≡ loaded new)
      × ((write_doc empty text fs).bak ≡ kept_backup fs)
unfolding read_doc write_doc
read_doc-write_doc try_parse fallback new empty text fs parsed = elim (Option-cases fs.primary) [
  | inl e ↦ (rw (e, parsed), rw e)
  | inr (raw, e) ↦ (rw (e, parsed), rw e)
]

-- The backup protects one write only: where the primary file is damaged and the document is read
-- from the backup, the next `writeDoc` first copies the damaged file over that backup, and a crash
-- after the copy leaves a document that no reader can recover.
pub write_doc-damaged {ℓ κ} :
    {Raw : Type ℓ} {T : Type κ} (try_parse : Raw → Option T) (fallback old : T)
    (empty text bad good : Raw) (fs : Files Raw)
    → fs.primary ≡ some bad
    → try_parse bad ≡ none
    → fs.bak ≡ some good
    → try_parse good ≡ some old
    → (read_doc try_parse fallback fs ≡ loaded old)
      × ((fs' : Files Raw) × Interrupted (write_ops empty text fs) fs fs'
          × (read_doc try_parse fallback fs' ≡ corrupt))
unfolding read_doc run_op
write_doc-damaged try_parse fallback old empty text bad good fs p d b g =
    (rw (p, d, b, g), (record fs { bak = fs.primary }, rw p (went_on stopped), rw (p, d)))
