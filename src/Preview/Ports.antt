-- ===== src/Preview/Ports.antt =====
-- src/env/ports.ts: `allocatePort`, the lowest free port of a pool.
pub mod Lowest
use samohost.Prelude.{
  ℕ, suc, zero, ◌+◌, Bool, true, false, Option, none, some, List, any, eqb, if◌then◌else◌,
}

pub record PortPool : Type 0 where
  pub base : ℕ
  pub size : ℕ

abbrev pub default_pool : PortPool
default_pool = record { base = 3100; size = 100 }

abbrev pub taken : List ℕ → ℕ → Bool
taken used p = any (λ q. eqb q p) used

-- The loop from `p` on, with the number of ports that the pool has left.
unfoldable pub allocate_from : List ℕ → ℕ → ℕ → Option ℕ
allocate_from used p zero = none
allocate_from used p (suc left) =
    let rest = allocate_from used (suc p) left in if taken used p then rest else some p

unfoldable pub allocate_port : List ℕ → PortPool → Option ℕ
allocate_port used pool = allocate_from used pool.base pool.size
