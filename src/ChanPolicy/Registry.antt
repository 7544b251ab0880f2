-- ===== src/ChanPolicy/Registry.antt =====
-- internal/chanpolicy/registry.go, and Restore of store.go. Every operation holds the registry's
-- lock, so it is a function from a state to the next; the clock's reading is an argument. The calls
-- of the persister and of the hooks, which follow the state change, are written to a trace.
pub mod State
pub mod Evict
pub mod Evaluate
pub mod Outcomes
pub mod Admin
pub mod Rules
pub mod Restore
pub mod Views
pub mod Invariant
