-- ===== src/Tests.antt =====
-- Runs of the model on small inputs, and each theorem at one.
pub mod Texts
pub mod Buffers
pub mod Styles
pub mod Files
pub mod Windows
pub mod Edits
pub mod Keys
pub mod Replace
