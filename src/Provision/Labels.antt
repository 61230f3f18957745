-- ===== src/Provision/Labels.antt =====
-- src/commands/provision.ts: `validateCustomLabels`, and the labels of a new server. The labels are
-- the entries of an object: their keys differ.
pub mod Laws
use samohost.Prelude.{
  ℕ, ◌≡◌, ◌↔◌, refl, String, Bool, true, false, not, ◌==◌, ◌&&◌, ◌||◌, Option, none, some, List, [],
  ◌∷◌, ◌++◌, All, all, find, length, units, eqb, ltb, leb, is_digit, is_lower, is_upper,
  if◌then◌else◌, arith, eq_refl, eq_comm, eq_iff, Bool-cases, eq_transfer,
}

pub data LabelError : Type 0 where
  empty_key : LabelError
  key_too_long invalid_key value_too_long : String → LabelError
  invalid_value : String → String → LabelError

abbrev label_max_len : ℕ
label_max_len = 63

abbrev pub is_alphanumeric : ℕ → Bool
is_alphanumeric c = is_digit c || (is_lower c || is_upper c)

abbrev pub is_label_char : ℕ → Bool
is_label_char c = is_alphanumeric c || (eqb c b'.' || (eqb c b'_' || eqb c b'-'))

abbrev pub ends_alphanumeric : ℕ → List ℕ → Bool
ends_alphanumeric c [] = is_alphanumeric c
ends_alphanumeric c (d ∷ ds) = is_label_char c && ends_alphanumeric d ds

-- `LABEL_KEY_RE`
unfoldable pub label_key_re : List ℕ → Bool
label_key_re [] = false
label_key_re (c ∷ cs) = is_alphanumeric c && ends_alphanumeric c cs

-- `LABEL_CHAR_RE`
abbrev pub label_char_re : List ℕ → Bool
label_char_re cs = all is_label_char cs

abbrev pub key_errors : String → List LabelError
key_errors key = if label_key_re (units key) then [] else invalid_key key ∷ []

abbrev pub value_errors : String → String → List LabelError
value_errors key value =
    if ltb label_max_len (length (units value))
    then value_too_long key ∷ []
    else if label_char_re (units value)
    then []
    else invalid_value key value ∷ []

abbrev pub label_errors : String → String → List LabelError
label_errors key value =
    if eqb (length (units key)) 0
    then empty_key ∷ []
    else if ltb label_max_len (length (units key))
    then key_too_long key ∷ []
    else key_errors key ++ value_errors key value

abbrev pub errors_of : List (String × String) → List LabelError
errors_of [] = []
errors_of ((key, value) ∷ labels) = label_errors key value ++ errors_of labels

unfoldable pub validate_custom_labels : Option (List (String × String)) → List LabelError
validate_custom_labels none = []
validate_custom_labels (some labels) = errors_of labels

abbrev pub managed_by_label : String
managed_by_label = "managed-by"

abbrev pub managed_by_value : String
managed_by_value = "samohost"

abbrev pub samohost_id_label : String
samohost_id_label = "samohost-id"

-- An assignment to a key of an object.
unfoldable pub set_label : String → String → List (String × String) → List (String × String)
set_label key value [] = (key, value) ∷ []
set_label key value ((k, v) ∷ labels) =
    let rest = set_label key value labels in
    if k == key then (key, value) ∷ labels else (k, v) ∷ rest

abbrev pub or_none : Option (List (String × String)) → List (String × String)
or_none none = []
or_none (some labels) = labels

-- The managed labels come last.
unfoldable pub merged_labels : Option (List (String × String)) → String → List (String × String)
merged_labels labels id =
    set_label samohost_id_label id (set_label managed_by_label managed_by_value (or_none labels))
