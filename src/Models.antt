-- ===== src/Models.antt =====
-- The package puller/models/.
pub mod FlowType
pub mod Flow
pub mod Account
pub mod Op
pub mod Block
pub mod Supply
pub mod Chain
pub mod Income
pub mod Right
pub mod Gov
