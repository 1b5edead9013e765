-- ===== src/Vfs/JsonText.antt =====
-- A reader of JSON texts, by the grammar of RFC 8259, and what it reads in an overlay.
pub mod Lexer
pub mod Pieces
pub mod Parser
pub mod RoundTrip
pub mod Overlay
pub mod Generated
