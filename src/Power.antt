-- ===== src/Power.antt =====
-- cloudflare-control/src/power.ts: power schedules, the week that a workstation follows, and
-- Wake-on-LAN. Each child holds the definitions of one part of the file and their proofs.
pub mod Clock
pub mod Days
pub mod Schedules
pub mod Saving
pub mod Exclusive
pub mod Requests
pub mod Week
pub mod Followed
mod Tests
