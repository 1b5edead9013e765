-- ===== src/DefFile.antt =====
-- tools/def_file_generator/def_file_generator.c: from the objects and definition files of a DLL
-- to the module-definition file that lists its exports.
pub mod Allocation
pub mod StringSet
pub mod Symbols
pub mod Lines
pub mod NmOutput
pub mod Definition
pub mod Shell
pub mod Generator
pub mod Process
pub mod WindowsProcess
