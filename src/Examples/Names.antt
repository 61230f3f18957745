-- ===== src/Examples/Names.antt =====
-- Names of environments, and known values of the hash.
use samohost.Prelude.{◌≤◌, ◌≡◌, refl, [], ◌∷◌, length, units, arith}
use samohost.Preview.Names.{
  xor, hash_from, hex, fnv1a, dashed, drop_first, drop_last, branch_label, with_suffix, env_name,
}
use samohost.Preview.Names.Laws.{length-env_name}
use samohost.Preview.Names.Dns.{IsDnsName, env_name-IsDnsName}

hash_of_a : fnv1a (units "a") ≡ units "e40c29"
unfolding fnv1a hash_from xor hex
hash_of_a = refl

label_of_branch : branch_label (units "--Feat/X__1.") ≡ units "feat-x-1"
unfolding branch_label dashed drop_first drop_last
label_of_branch = refl

taken_name :
    env_name (units "crm") (units "a") ((units "crm-a", units "A") ∷ []) ≡ units "crm-a-e40c29"
unfolding env_name branch_label dashed drop_first drop_last with_suffix fnv1a hash_from xor hex
taken_name = refl

length-env_name_example :
    length (env_name (units "crm") (units "Feat/X") ((units "crm-feat-x", units "feat/x") ∷ []))
    ≤ 63
length-env_name_example =
    length-env_name (units "crm") (units "Feat/X") ((units "crm-feat-x", units "feat/x") ∷ [])
      (omega arith)

env_name-IsDnsName_example :
    IsDnsName (env_name (units "crm") (units "Feat/X") ((units "crm-feat-x", units "feat/x") ∷ []))
env_name-IsDnsName_example =
    env_name-IsDnsName (units "crm") (units "Feat/X") ((units "crm-feat-x", units "feat/x") ∷ [])
      (refl, refl, refl)
