-- ===== src/Prelude/Decode.antt =====
-- The text of a sequence of UTF-16 code units, the inverse of `units`.
use Prim.Native.Nat.{ℕ, ◌+◌, ◌-◌, ◌*◌, compare, Ordering}
use Prim.Native.Char.{Char, char, nul, IsLt, IsScalar}
use Prim.Native.String.{String}
use mathlib.Core.Bool.{Bool, true, false, ◌&&◌}
use mathlib.Core.List.{List, [], ◌∷◌}
use samohost.Prelude.Tests.{leb}

-- The two helpers of the built-in `IsScalar`, by the same clauses.
abbrev BothLt : Ordering → Ordering → Type 0
BothLt Ordering.lt o = IsLt o
BothLt Ordering.eq _ = ⊥
BothLt Ordering.gt _ = ⊥

abbrev AreScalar : Ordering → Ordering → Ordering → Type 0
AreScalar Ordering.lt _ _ = Unit
AreScalar Ordering.eq o p = BothLt o p
AreScalar Ordering.gt o p = BothLt o p

-- The character of a number, and U+0000 where the number is no scalar value.
char_if : (n : ℕ) (a b c : Ordering) → (AreScalar a b c → IsScalar n) → Char
char_if n Ordering.lt b c valid = char n (valid tt)
char_if n Ordering.eq Ordering.lt Ordering.lt valid = char n (valid tt)
char_if n Ordering.gt Ordering.lt Ordering.lt valid = char n (valid tt)
char_if n _ _ _ valid = nul

char_of : ℕ → Char
unfolding char_if
char_of n = char_if n (compare n 55296) (compare 57343 n) (compare n 1114112) (λ h. h)

abbrev is_high : ℕ → Bool
is_high n = leb 55296 n && leb n 56319

abbrev is_low : ℕ → Bool
is_low n = leb 56320 n && leb n 57343

-- A high surrogate and the low one after it are one character.
unfoldable pub text_of : List ℕ → String
unfolding char_of
text_of [] = String.[]
text_of (a ∷ []) = String.◌∷◌ (char_of a) String.[]
text_of (a ∷ b ∷ rest) = elim (is_high a && is_low b) [
  | true ↦ String.◌∷◌ (char_of (65536 + (a - 55296) * 1024 + (b - 56320))) (text_of rest)
  | false ↦ String.◌∷◌ (char_of a) (text_of (b ∷ rest))
]
