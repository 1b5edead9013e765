-- ===== src/Vfs.antt =====
-- tools/case_insensitive_vfs: the overlay that makes an SDK's directories case insensitive for
-- Clang, from the names in a directory to the JSON text.
pub mod Paths
pub mod Json
pub mod Entries
pub mod Overlay
pub mod CommandLine
pub mod PathInfo
pub mod Allocation
pub mod WindowsFiles
pub mod TextBuffer
pub mod JsonText
