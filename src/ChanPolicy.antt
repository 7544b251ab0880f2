-- ===== src/ChanPolicy.antt =====
-- internal/chanpolicy: the outcomes of requests by channel and proxy, and the temporary bans that
-- they lead to. A child models each part of the package.
pub mod Policy
pub mod Window
pub mod Name
pub mod Log
pub mod Rule
pub mod Registry
mod Tests
