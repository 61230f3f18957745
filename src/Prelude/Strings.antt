-- ===== src/Prelude/Strings.antt =====
-- Laws of whole texts under `==`.
use Prim.Native.String.{String}
use mathlib.Core.Path.{◌≡◌}
use mathlib.Core.Bool.{true, false}
use native.Mathlib.Omega.{arith}
use text.Mathlib.Text.{◌==◌}
use text.Mathlib.TextEquality.{eq_iff}

pub eq_comm : (s t : String) → (s == t) ≡ (t == s)
eq_comm s t = ground (arith, eq_iff s t, eq_iff t s)

-- A text equal to `s` compares as `s` does.
pub eq_transfer : (s t u : String) → (s == t) ≡ true → (u == s) ≡ (u == t)
eq_transfer s t u h = ground (arith, eq_iff s t, eq_iff u s, eq_iff u t)

pub eq_apart : (s t u : String) → (s == t) ≡ false → (u == s) ≡ true → (u == t) ≡ false
eq_apart s t u h k = ground (arith, eq_iff s t, eq_iff u s, eq_iff u t)
