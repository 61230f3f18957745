-- ===== src/Records.antt =====
-- src/types.ts: the records that the stores keep. Optional fields are `Option`, dates and texts
-- are `String`, and a union of literals is a data type.
pub mod Vm
pub mod App
pub mod Env
