-- ===== src/Utf.antt =====
-- server/utf.c
pub mod Decode
pub mod Encode
pub mod Form
pub mod Codec
pub mod Length
pub mod Text
pub mod Bounds
pub mod Call
