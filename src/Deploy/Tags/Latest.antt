-- ===== src/Deploy/Tags/Latest.antt =====
-- The chosen tag is a greatest one of those that take part.
use mathlib.Core.List.{Memᴰ}
use samohost.Prelude.{
  ℕ, ◌≡◌, ◌⊎◌, inl, inr, refl, sym, ◌∙◌, String, Bool, true, false, Option, none, some, List, [],
  ◌∷◌, All, arith, if◌then◌else◌, Bool-cases, units, is_digit,
}
use mathlib.Core.Path.{subst}
use samohost.Deploy.Tags.{
  Semver, Sign, same, less, greater, is_greater, compare_semver, parse_semver, candidate, better,
  latest_from, select_latest_tag, raw_of, parse_major, span, without_v,
}
use samohost.Deploy.Tags.Order.{flip, compare_semver-IsOrder}

-- Not above, where a missing version is below every other.
abbrev pub AtMost : Option Semver → Option Semver → Type 0
AtMost none best = Unit
AtMost (some v) none = ⊥
AtMost (some v) (some best) = is_greater (compare_semver v best) ≡ false

not_above_itself : (s : Sign) → s ≡ flip s → is_greater s ≡ false
not_above_itself same h = refl
not_above_itself less h = refl
not_above_itself greater h = ground (arith, h)

AtMost-refl : (v : Option Semver) → AtMost v v
AtMost-refl none = tt
AtMost-refl (some v) = not_above_itself (compare_semver v v) (compare_semver-IsOrder.turns v v)

AtMost-trans : (u v w : Option Semver) → AtMost u v → AtMost v w → AtMost u w
AtMost-trans none v w h k = tt
AtMost-trans (some u) none w h k = absurd h
AtMost-trans (some u) (some v) none h k = k
AtMost-trans (some u) (some v) (some w) h k =
    ground (arith, compare_semver-IsOrder.joins u v w, h, k)

not_both : (s t : Sign) → t ≡ flip s → is_greater s ≡ true → is_greater t ≡ false
not_both s t turned above = ground (arith, turned, above)

raw_if : (b : Bool) (w v : Semver) → (if b then some w else none) ≡ some v → v.raw ≡ w.raw
raw_if b w v h = ground (arith, h)

parse_semver-raw : (name : String) (v : Semver) → parse_semver name ≡ some v → v.raw ≡ name
unfolding parse_semver
parse_semver-raw name v h = by_major (span is_digit (without_v (units name))) h
  where
    by_major : (major : List ℕ × List ℕ) → parse_major name major ≡ some v → v.raw ≡ name
    by_major ([], rest) h = ground (arith, h)
    by_major (d ∷ ds, rest) h = raw_if _ _ v h

module _ (tag_matches : String → String → Bool) (pattern : String) (is_date : Bool) where
  better-AtMost :
      (best c : Option Semver)
      → AtMost best (better tag_matches pattern is_date best c)
        × AtMost c (better tag_matches pattern is_date best c)
  better-AtMost best none = (AtMost-refl best, tt)
  better-AtMost none (some v) = (tt, AtMost-refl (some v))
  better-AtMost (some b) (some v) = elim (Bool-cases (is_greater (compare_semver v b))) [
    | inl above ↦ rw above (
      not_both (compare_semver v b) (compare_semver b v) (compare_semver-IsOrder.turns v b) above,
      AtMost-refl (some v),
    )
    | inr below ↦ rw below (AtMost-refl (some b), below)
  ]

  latest_from-AtMost :
      (best : Option Semver) (names : List String)
      → AtMost best (latest_from tag_matches pattern is_date best names)
        × All
            (λ name.
              AtMost
                (candidate tag_matches pattern is_date name)
                (latest_from tag_matches pattern is_date best names))
            names
  unfolding latest_from
  latest_from-AtMost best [] = (AtMost-refl best, tt)
  latest_from-AtMost best (name ∷ names) =
      let c = candidate tag_matches pattern is_date name in
      let next = better tag_matches pattern is_date best c in
      let (above_best, above_name) = better-AtMost best c in
      let (top, rest) = latest_from-AtMost next names in
      (
        AtMost-trans best next (latest_from tag_matches pattern is_date next names) above_best top,
        (
          AtMost-trans c next (latest_from tag_matches pattern is_date next names) above_name top,
          rest,
        ),
      )

  -- A listed name that takes part as the given version.
  abbrev pub TakesPart : List String → Semver → Type 0
  TakesPart names v =
      (name : String) × Memᴰ name names × (candidate tag_matches pattern is_date name ≡ some v)

  better-either :
      (best c : Option Semver)
      → (better tag_matches pattern is_date best c ≡ best)
        ⊎ (better tag_matches pattern is_date best c ≡ c)
  better-either best none = inl refl
  better-either none (some v) = inr refl
  better-either (some b) (some v) = elim (Bool-cases (is_greater (compare_semver v b))) [
    | inl above ↦ inr (rw above refl)
    | inr below ↦ inl (rw below refl)
  ]

  latest_from-TakesPart :
      (best : Option Semver) (names : List String) (v : Semver)
      → latest_from tag_matches pattern is_date best names ≡ some v
      → (best ≡ some v) ⊎ TakesPart names v
  unfolding latest_from
  latest_from-TakesPart best [] v h = inl h
  latest_from-TakesPart best (name ∷ names) v h =
      elim (latest_from-TakesPart
        (better tag_matches pattern is_date best (candidate tag_matches pattern is_date name)) names
        v h) [
          | inr (n, member, is_v) ↦ inr (n, Memᴰ.tail member, is_v)
          | inl here ↦ elim (better-either best (candidate tag_matches pattern is_date name)) [
            | inl old ↦ inl (sym old ∙ here)
            | inr new ↦ inr (name, Memᴰ.head refl, sym new ∙ here)
          ]
        ]

  candidate-raw :
      (name : String) (v : Semver)
      → candidate tag_matches pattern is_date name ≡ some v
      → v.raw ≡ name
  unfolding candidate
  candidate-raw name v h = ground (arith, parse_semver-raw name v, h)

  -- What a choice among the names is: none where none takes part, and else one of them with no
  -- greater one among them.
  pub data Latest (names : List String) : Option String → Type 0 where
    nothing :
        All (λ name. candidate tag_matches pattern is_date name ≡ none) names → Latest names none
    latest :
        (name : String) (v : Semver)
        → Memᴰ name names
        → candidate tag_matches pattern is_date name ≡ some v
        → All (λ other. AtMost (candidate tag_matches pattern is_date other) (some v)) names
        → Latest names (some name)

  AtMost-none : (c : Option Semver) → AtMost c none → c ≡ none
  AtMost-none none h = refl
  AtMost-none (some v) h = absurd h

  All-AtMost-none :
      (names : List String)
      → All (λ name. AtMost (candidate tag_matches pattern is_date name) none) names
      → All (λ name. candidate tag_matches pattern is_date name ≡ none) names
  All-AtMost-none [] h = tt
  All-AtMost-none (name ∷ names) (h, hs) =
      (AtMost-none (candidate tag_matches pattern is_date name) h, All-AtMost-none names hs)

  found-Latest :
      (names : List String) (r : Option Semver)
      → latest_from tag_matches pattern is_date none names ≡ r
      → Latest names (raw_of tag_matches pattern is_date r)
  found-Latest names none h = nothing (
      All-AtMost-none names (
        subst (λ r. All (λ n. AtMost (candidate tag_matches pattern is_date n) r) names) h
          (latest_from-AtMost none names).1))
  found-Latest names (some v) h = elim (latest_from-TakesPart none names v h) [
    | inl impossible ↦ ground (arith, impossible)
    | inr (name, member, is_v) ↦
        subst (λ n. Latest names (some n)) (sym (candidate-raw name v is_v))
          (latest name v member is_v (
            subst (λ r. All (λ n. AtMost (candidate tag_matches pattern is_date n) r) names) h
              (latest_from-AtMost none names).1))
  ]

-- The choice of the latest tag gives no tag exactly where no name takes part, and else a listed name
-- that takes part, with no name that takes part above it in the order of versions.
pub select_latest_tag-Latest :
    (tag_matches : String → String → Bool) (pattern : String) (is_date : Bool) (names : List String)
    → Latest tag_matches pattern is_date names (select_latest_tag tag_matches pattern is_date names)
unfolding select_latest_tag
select_latest_tag-Latest tag_matches pattern is_date names =
    found-Latest tag_matches pattern is_date names
      (latest_from tag_matches pattern is_date none names) refl
