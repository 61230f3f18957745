-- ===== src/Provision/Labels/Laws.antt =====
-- Which labels are accepted, and which label wins.
use samohost.Prelude.{
  ℕ, ◌≤◌, ◌<◌, ◌≡◌, ◌↔◌, refl, ◌∙◌, sym, String, Bool, true, false, ◌==◌, ◌&&◌, ◌||◌, Option, some,
  List, [], ◌∷◌, All, all, find, length, units, arith, eq_refl, eq_iff, eq_apart, append_nil_iff,
}
use samohost.Provision.Labels.{
  is_alphanumeric, is_label_char, ends_alphanumeric, label_key_re, key_errors, value_errors,
  label_errors, errors_of, validate_custom_labels, set_label, merged_labels, managed_by_label,
  managed_by_value, samohost_id_label,
}

abbrev final : ℕ → List ℕ → ℕ
final c [] = c
final c (d ∷ ds) = final d ds

-- Of label characters, the first and the last alphanumeric.
abbrev pub IsKey : List ℕ → Type 0
IsKey [] = ⊥
IsKey (c ∷ cs) =
    (is_alphanumeric c ≡ true)
    × (is_alphanumeric (final c cs) ≡ true)
    × (all is_label_char (c ∷ cs) ≡ true)

abbrev pub IsLabel : String × String → Type 0
IsLabel (key, value) =
    IsKey (units key)
    × (length (units key) ≤ 63)
    × (length (units value) ≤ 63)
    × (all is_label_char (units value) ≡ true)

ends_alphanumeric-all :
    (c : ℕ) (cs : List ℕ)
    → ends_alphanumeric c cs ≡ (all is_label_char (c ∷ cs) && is_alphanumeric (final c cs))
ends_alphanumeric-all c [] = absorbs (is_alphanumeric c) _
  where
    absorbs : (a b : Bool) → a ≡ (((a || b) && true) && a)
    absorbs true b = refl
    absorbs false b = ground arith
ends_alphanumeric-all c (d ∷ ds) = rw (ends_alphanumeric-all d ds) (assoc (is_label_char c) _ _)
  where
    assoc : (a b c' : Bool) → (a && (b && c')) ≡ ((a && b) && c')
    assoc true b c' = refl
    assoc false b c' = refl

and_iff : (a b : Bool) → (a && b ≡ true) ↔ ((a ≡ true) × (b ≡ true))
and_iff a b = (λ h. (ground (arith, h), ground (arith, h)), λ h. ground (arith, h))

label_key_re-IsKey : (cs : List ℕ) → (label_key_re cs ≡ true) ↔ IsKey cs
unfolding label_key_re
label_key_re-IsKey [] = (λ h. absurd (ground (arith, h)), λ h. absurd h)
label_key_re-IsKey (c ∷ cs) = (
  λ h.
      let (first, rest) = (and_iff _ _).0 h in
      let (chars, last) = (and_iff _ _).0 (sym (ends_alphanumeric-all c cs) ∙ rest) in
      (first, last, chars),
  λ h. (and_iff _ _).1 (h.0, ends_alphanumeric-all c cs ∙ (and_iff _ _).1 (h.2, h.1)),
)

IsKey-length : (cs : List ℕ) → IsKey cs → 0 < length cs
IsKey-length [] h = absurd h
IsKey-length (c ∷ cs) h = omega arith

key_errors-none : (key : String) → (key_errors key ≡ []) ↔ IsKey (units key)
key_errors-none key =
    let (to, from) = label_key_re-IsKey (units key) in
    (λ h. to (ground (arith, h)), λ h. ground (arith, from h))

value_errors-none :
    (key value : String)
    → (value_errors key value ≡ [])
      ↔ ((length (units value) ≤ 63) × (all is_label_char (units value) ≡ true))
value_errors-none key value =
    (λ h. (ground (arith, h), ground (arith, h)), λ h. ground (arith, h.0, h.1))

label_errors-none : (key value : String) → (label_errors key value ≡ []) ↔ IsLabel (key, value)
label_errors-none key value = (accepted, raised)
  where
    accepted : label_errors key value ≡ [] → IsLabel (key, value)
    accepted h =
        let (ks, vs) =
          (append_nil_iff (key_errors key) (value_errors key value)).0 (ground (arith, h)) in
        let (short, chars) = (value_errors-none key value).0 vs in
        ((key_errors-none key).0 ks, ground (arith, h), short, chars)

    raised : IsLabel (key, value) → label_errors key value ≡ []
    raised (is_key, key_short, short, chars) =
        let ks = (key_errors-none key).1 is_key in
        let vs = (value_errors-none key value).1 (short, chars) in
        let some_char = IsKey-length (units key) is_key in
        ground (
          arith,
          some_char,
          key_short,
          (append_nil_iff (key_errors key) (value_errors key value)).1 (ks, vs),
        )

errors_of-none : (labels : List (String × String)) → (errors_of labels ≡ []) ↔ All IsLabel labels
errors_of-none [] = (λ h. tt, λ h. refl)
errors_of-none ((key, value) ∷ labels) =
    let (first, first') = label_errors-none key value in
    let (rest, rest') = errors_of-none labels in
    let (split, join) = append_nil_iff (label_errors key value) (errors_of labels) in
    (λ h. let (f, r) = split h in (first f, rest r), λ h. join (first' h.0, rest' h.1))

-- The labels of a specification are accepted exactly if each key has 1 to 63 code units, each value at
-- most 63, all of them letters, digits, dots, dashes or underscores, and a key starts and ends with a
-- letter or digit.
pub validate_custom_labels-none :
    (labels : List (String × String))
    → (validate_custom_labels (some labels) ≡ []) ↔ All IsLabel labels
unfolding validate_custom_labels
validate_custom_labels-none labels = errors_of-none labels

-- The first entry of a key.
abbrev pub entry : String → List (String × String) → Option (String × String)
entry key = find (λ e. e.0 == key)

entry-set_label :
    (key value : String) (labels : List (String × String))
    → entry key (set_label key value labels) ≡ some (key, value)
unfolding set_label
entry-set_label key value [] = ground (arith, eq_refl key)
entry-set_label key value ((k, v) ∷ labels) =
    ground (arith, entry-set_label key value labels, eq_refl key)

entry-set_label_ne :
    (other key value : String) (labels : List (String × String))
    → (key == other) ≡ false
    → entry other (set_label key value labels) ≡ entry other labels
unfolding set_label
entry-set_label_ne other key value [] ne = ground (arith, ne)
entry-set_label_ne other key value ((k, v) ∷ labels) ne =
    ground
      (arith, entry-set_label_ne other key value labels ne, ne, eq_apart key other k, eq_iff k key)

-- A server is created with the two managed labels, whatever the specification gives under their keys,
-- and with every other label of the specification as it is.
pub merged_labels-managed :
    (labels : List (String × String)) (id other : String)
    → (managed_by_label == other) ≡ false
    → (samohost_id_label == other) ≡ false
    → (entry managed_by_label (merged_labels (some labels) id)
        ≡ some (managed_by_label, managed_by_value))
      × (entry samohost_id_label (merged_labels (some labels) id) ≡ some (samohost_id_label, id))
      × (entry other (merged_labels (some labels) id) ≡ entry other labels)
unfolding merged_labels
merged_labels-managed labels id other not_managed not_id =
    let managed = set_label managed_by_label managed_by_value labels in
    (
      entry-set_label_ne managed_by_label samohost_id_label id managed refl
          ∙ entry-set_label managed_by_label managed_by_value labels,
      entry-set_label samohost_id_label id managed,
      entry-set_label_ne other samohost_id_label id managed not_id
          ∙ entry-set_label_ne other managed_by_label managed_by_value labels not_managed,
    )
