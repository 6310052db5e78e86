-- ===== src/Micheline.antt =====
-- The package micheline/.
pub mod Tree
pub mod Wire
pub mod Zarith
pub mod Annots
pub mod Codec
