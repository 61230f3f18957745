-- ===== src/Markers/RoundTrip.antt =====
-- Markers that are printed between other output are read back, in order.
use mathlib.Core.List.{append_assoc}
use samohost.Prelude.{
  ◌+◌, ℕ, zero, suc, ◌≤◌, ◌≡◌, refl, ap, ◌∙◌, true, false, none, some, List, [], ◌∷◌, ◌++◌, arith,
  eqb, length, units, length-append, all, All,
}
use samohost.Markers.{
  Marker, PhaseStatus, start, ok, fail, status_text, marker, phase_prefix, is_name_char,
  strip_prefix, span_name, with_status, marker_at, markers, markers_from,
}

strip_prefix-append : (ps text : List ℕ) → strip_prefix ps (ps ++ text) ≡ some text
unfolding strip_prefix
strip_prefix-append [] text = refl
strip_prefix-append (p ∷ ps) text = ground (arith, strip_prefix-append ps text)

span_name-append :
    (name rest : List ℕ)
    → all is_name_char name ≡ true
    → span_name (name ++ b':' ∷ rest) ≡ (name, b':' ∷ rest)
unfolding span_name
span_name-append [] rest h = refl
span_name-append (c ∷ cs) rest h = ground (arith, span_name-append cs rest)

-- A name that a marker can carry.
abbrev pub IsName : List ℕ → Type 0
IsName name = (1 ≤ length name) × (all is_name_char name ≡ true)

with_status-text :
    (c : ℕ) (cs : List ℕ) (status : PhaseStatus) (text : List ℕ)
    → with_status (c ∷ cs) (status_text status ++ text) ≡ some ((c ∷ cs, status), text)
unfolding strip_prefix
with_status-text c cs start text = refl
with_status-text c cs ok text = refl
with_status-text c cs fail text = refl

marker_at-marker :
    (name : List ℕ) (status : PhaseStatus) (text : List ℕ)
    → IsName name
    → marker_at (marker (name, status) ++ text) ≡ some ((name, status), text)
unfolding marker_at marker
marker_at-marker [] status text h = absurd (omega arith)
marker_at-marker (c ∷ cs) status text (_, h) =
    let after = status_text status ++ text in
    let whole : marker (c ∷ cs, status) ++ text ≡ phase_prefix ++ ((c ∷ cs) ++ b':' ∷ after) =
      append_assoc phase_prefix _ text
      ∙ ap (λ (t : List ℕ). phase_prefix ++ c ∷ t)
          (append_assoc cs (b':' ∷ status_text status) text) in
    rw
      (
        whole,
        strip_prefix-append phase_prefix ((c ∷ cs) ++ b':' ∷ after),
        span_name-append (c ∷ cs) after h,
      )
      (with_status-text c cs status text)

strip_prefix-ne :
    (p : ℕ) (ps : List ℕ) (c : ℕ) (cs : List ℕ)
    → eqb p c ≡ false
    → strip_prefix (p ∷ ps) (c ∷ cs) ≡ none
unfolding strip_prefix
strip_prefix-ne p ps c cs h = rw h

markers_from-match :
    (fuel : ℕ) (s : List ℕ) (m : Marker) (rest : List ℕ)
    → marker_at s ≡ some (m, rest)
    → markers_from (suc fuel) s ≡ m ∷ markers_from fuel rest
unfolding markers_from
markers_from-match fuel [] m rest h = unfold marker_at phase_prefix strip_prefix in cc
markers_from-match fuel (c ∷ cs) m rest h = rw (h, markers_from)

length-marker : (m : Marker) → 1 ≤ length (marker m)
unfolding marker phase_prefix
length-marker (name, status) = omega arith

shorter : (s t : List ℕ) (fuel : ℕ) → 1 ≤ length s → length (s ++ t) ≤ fuel → length t + 1 ≤ fuel
shorter s t fuel h k = omega (arith, length-append s t)

-- A character other than `<` starts no marker.
marker_at-other : (c : ℕ) (cs : List ℕ) → eqb b'<' c ≡ false → marker_at (c ∷ cs) ≡ none
unfolding marker_at phase_prefix
marker_at-other c cs h = rw (strip_prefix-ne b'<' (units "<<SAMOHOST_PHASE:") c cs h)

abbrev pub IsNoise : List ℕ → Type 0
IsNoise = All (λ c. eqb b'<' c ≡ false)

module _ (text : List ℕ) (ms : List Marker)
    (rest : (fuel : ℕ) → length text ≤ fuel → markers_from fuel text ≡ ms) where
  markers_from-noise :
      (fuel : ℕ) (noise : List ℕ)
      → length (noise ++ text) ≤ fuel
      → IsNoise noise
      → markers_from fuel (noise ++ text) ≡ ms
  unfolding markers_from
  markers_from-noise fuel [] enough n = rest fuel enough
  markers_from-noise zero (c ∷ cs) enough n = absurd (omega arith)
  markers_from-noise (suc fuel) (c ∷ cs) enough (n, ns) =
      rw (marker_at-other c (cs ++ text) n, markers_from)
        (markers_from-noise fuel cs (omega arith) ns)

  markers_from-marker :
      (fuel : ℕ) (name : List ℕ) (status : PhaseStatus)
      → length (marker (name, status) ++ text) ≤ fuel
      → IsName name
      → markers_from fuel (marker (name, status) ++ text) ≡ (name, status) ∷ ms
  markers_from-marker zero name status enough h =
      absurd (omega (arith, shorter _ text zero (length-marker (name, status)) enough))
  markers_from-marker (suc fuel) name status enough h =
      let fits = shorter _ text (suc fuel) (length-marker (name, status)) enough in
      markers_from-match fuel _ (name, status) text (marker_at-marker name status text h)
      ∙ ap (λ (l : List Marker). (name, status) ∷ l) (rest fuel (omega arith))

-- A script's output: each marker after some other output, and other output at the end.
abbrev pub output : List (List ℕ × Marker) → List ℕ → List ℕ
output [] tail = tail
output ((noise, m) ∷ parts) tail = noise ++ (marker m ++ output parts tail)

abbrev pub printed : List (List ℕ × Marker) → List Marker
printed [] = []
printed ((noise, m) ∷ parts) = m ∷ printed parts

abbrev pub IsOutput : List (List ℕ × Marker) → Type 0
IsOutput [] = Unit
IsOutput ((noise, (name, status)) ∷ parts) = IsNoise noise × IsName name × IsOutput parts

noise_only :
    (tail : List ℕ) → IsNoise tail → (fuel : ℕ) → length tail ≤ fuel → markers_from fuel tail ≡ []
unfolding markers_from
noise_only [] n zero enough = refl
noise_only [] n (suc fuel) enough = refl
noise_only (c ∷ cs) n zero enough = absurd (omega arith)
noise_only (c ∷ cs) (n, ns) (suc fuel) enough =
    rw (marker_at-other c cs n, markers_from) (noise_only cs ns fuel (omega arith))

output-markers :
    (parts : List (List ℕ × Marker)) (tail : List ℕ)
    → IsOutput parts
    → IsNoise tail
    → (fuel : ℕ) → length (output parts tail) ≤ fuel
    → markers_from fuel (output parts tail) ≡ printed parts
output-markers [] tail h t fuel enough = noise_only tail t fuel enough
output-markers ((noise, (name, status)) ∷ parts) tail (n, i, h) t fuel enough =
    markers_from-noise (marker (name, status) ++ output parts tail) ((name, status) ∷ printed parts)
      (λ k fits.
        markers_from-marker (output parts tail) (printed parts) (output-markers parts tail h t) k
          name status fits i)
      fuel noise enough n

-- Whatever else a script prints between its markers, as long as no `<` is in it, exactly its markers
-- are read back, in order.
pub markers-output :
    (parts : List (List ℕ × Marker)) (tail : List ℕ)
    → IsOutput parts
    → IsNoise tail
    → markers (output parts tail) ≡ printed parts
markers-output parts tail h t =
    unfold markers in output-markers parts tail h t (length (output parts tail)) (omega arith)
