-- ===== src/Puller/Flows.antt =====
-- puller/flow.go: the flows that each kind of operation makes from its balance updates.
pub mod Parts
pub mod Baking
pub mod Slashing
pub mod Manager
pub mod Transfer
pub mod Originate
pub mod Sums
pub mod Loops
pub mod Inversion
pub mod Conserve
pub mod SeedBurns
