-- ===== src/Types.antt =====
-- The data that the parts of the program share.
pub mod Protocol
pub mod Transfer
pub mod Trust
pub mod Checkpoint
pub mod Device
