-- ===== src/Examples.antt =====
-- Concrete runs of the modelled code, and the theorems at concrete inputs.
pub mod Fixed
mod Wire
mod Histograms
mod Verdicts
mod Flows
pub mod Stores
mod Queries
mod Table
mod Fleets
mod Diagnostics
mod Paths
pub mod Runs
mod Mailbox
mod Sockets
mod Loads
mod Cohorts
mod Baselines
