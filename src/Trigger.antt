-- ===== src/Trigger.antt =====
-- src/commands/trigger.ts, `runTriggerRun`: one cycle of the timer. `Decide` is what the deploy loop
-- does with one app, `Cycle` the loop with its bookkeeping and the report, `Passes` the passes per
-- machine, and `Heal` the pass that brings an app's configuration up to date.
pub mod Decide
pub mod Cycle
pub mod Passes
pub mod Heal
