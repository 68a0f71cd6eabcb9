-- ===== src/Examples.antt =====
-- Concrete inputs of the theorems.
pub mod Vectors
pub mod Wire
pub mod Cuts
pub mod Consents
pub mod Pulls
pub mod Scans
pub mod Stores
pub mod Folders
pub mod Reach
