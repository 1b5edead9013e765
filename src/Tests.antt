-- ===== src/Tests.antt =====
-- Runs of the programs on concrete inputs, and the theorems applied to them.
mod Sort
mod Sets
mod Names
mod Nm
mod Words
mod Run
mod Directory
mod Library
mod Modules
mod Overlay
mod Link
mod Buffers
mod TextBuffer
mod Header
mod Command
mod Windows
mod Fdo
mod JsonText
