-- ===== src/Text.antt =====
-- The text of a buffer (src/text.c, include/text.h).
pub mod Piece
pub mod Edit
pub mod Read
pub mod Lines
pub mod Replace
pub mod Check
pub mod Write
pub mod Place
