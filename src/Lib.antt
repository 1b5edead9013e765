-- ===== src/Lib.antt =====
-- The C tools of the toolchain, modelled on byte strings and native numbers.
--
-- tools/def_file_generator/def_file_generator.c (DefFile) makes a module-definition file for a DLL:
-- it expands its inputs, merges the definition files among them, lists the objects in a response
-- file for llvm-nm, takes the exported symbols from llvm-nm's output, and prints them.
--   DefFile/StringSet     the string_list and string_set_ functions, on a list with its capacity
--   DefFile/Lines         read_line, the loops over it, and trim
--   DefFile/Shell         decode_shell_argument, a state machine over the bytes of an entry
--   DefFile/Symbols       the rules of both ABIs, and remove_imported_symbols
--   DefFile/NmOutput      parse_nm_output
--   DefFile/Definition    merge_definition_file, and the text that write_def_file writes
--   DefFile/Generator     add_input to main, with the file system passed from step to step
--   DefFile/Allocation    xrealloc and xstrdup
--   DefFile/Process       run; DefFile/WindowsProcess has its Windows branch
-- tools/case_insensitive_vfs (Vfs) describes a directory tree for a file system that does not
-- distinguish case.
--   Vfs/Entries           ci_collect_preferred_entries of filesystem.c, and what it calls
--   Vfs/Paths, Vfs/Json   ci_fold_case, ci_join_path, ci_generic_path and ci_json_string
--   Vfs/Overlay           render_directory and case_insensitive_vfs_generate of vfs.c
--   Vfs/JsonText          a reader of JSON texts, which reads the overlay back
--   Vfs/TextBuffer        the growing text buffer of vfs.c
--   Vfs/CommandLine       main of main.c
--   Vfs/PathInfo          ci_path_info of filesystem.c
--   Vfs/Allocation        ci_xmalloc, ci_xrealloc, ci_xstrdup and ci_set_error of filesystem.c
--   Vfs/WindowsFiles      ci_path_info and the listing of a directory, in the Windows branches
-- tools/internal/static_library_validator.c (Validator) fails where two objects of a static
-- library define the same symbol.
--   Validator             parse_nm_line, the sorting and the report
--   Validator/Main        main, with its tools as a parameter
--   Validator/Buffers     the growing buffers, read_file, copy_file and add_symbol
--   Validator/Process     run; Validator/WindowsProcess has its Windows branch
-- tools/internal/link_wrapper.c (LinkWrapper) links, and starts the tools that follow a link, as its
-- environment asks for; the files and the commands that were started are passed from step to step.
--   LinkWrapper           run_process, run_process_with_stdout and required_env
--   LinkWrapper/WindowsProcess  the Windows branches of run_process and run_process_with_stdout
--   LinkWrapper/CopyFile  copy_file
--   LinkWrapper/Versions  has_versioned_symbols
--   LinkWrapper/Interface generate_interface_library and main
-- tools/internal/header_parser.c (HeaderParser) touches a file and becomes the compiler,
-- or, in HeaderParser/Windows, runs it.
-- tools/internal/module_map_generator.c (ModuleMap) prints a module map with the size of each
-- header, in a loop over its parameter file; ModuleMap/Main has main.
-- tools/def_file_generator/bigobj_fixture_writer.c (BigobjFixture) prints the assembly of an object
-- with 65301 sections.
-- toolchain/bootstrap/stage3/fdo_freestanding.c (Fdo) is the loop over 32-bit values that trains the
-- profile of a stage; Fdo/Bits has the operations on binary digits as arithmetic.
-- Bytes has the functions of string.h and ctype.h that these programs call, in the C locale.
-- Windows has what the Windows branches share. Processes has what both programs that read llvm-nm
-- share. Memory has arrays that realloc lets grow, with sizes that wrap around at 2 ^ 64. Prelude
-- has what all modules share, and Tests runs the programs on concrete inputs.
--
-- A string is the list of its bytes without the terminating zero; a pointer into one is the rest
-- of the list, and `none` stands for NULL. Failures are values: an Option, or Outcome and Status
-- for the whole generator, where `fault` is a search in a set that reads outside its list. Loops over a text recurse
-- on it; the other loops recurse on fuel, which is the length of what they work on, and the
-- theorems on the functions that supply it need no hypothesis about it: the binary search halves
-- its range, every separator found shortens the rest, every line read shortens the file, and
-- every group has an entry. A capacity doubles at most 64 times, which is enough for any size up
-- to 2 ^ 63, and a copy has at most one chunk more than bytes. A call of waitpid that is always
-- interrupted is a run that does not come back: the fuel bounds the calls, and `waiting` is its
-- end. The fuel of render_directory is the depth to which directories are entered; one theorem
-- says when it is enough. A loop up to a constant has fuel for each test of its condition, and the
-- JSON reader has as much as there are tokens, of which every value takes one.
--
-- Parameters stand for what is not in the repository: `Outside` for the environment, the
-- programs that are run and the outcome of every system call, `World` and `FileSystem` for the
-- files, `Qsort` and `RootSort` for a qsort that rearranges an array into ascending order
-- (Tests/Sort has one), `System`, `Streams` and `Temporary` for the processes and the streams of
-- the link wrapper, `Realloc` for realloc, which keeps what an array held, and `Crt` and `Host` for
-- the descriptors and the programs of Windows, of which `IsCrt` says what is documented,
-- `WindowsFiles` for its directories, and `Malloc` for malloc.
--
-- Not modelled: the failure of malloc outside the growing buffers and the copied strings, messages
-- on the standard error except the validator's report, and what is copied from glibc.
pub mod BigobjFixture
pub mod Bytes
pub mod DefFile
pub mod Fdo
pub mod HeaderParser
pub mod LinkWrapper
pub mod Memory
pub mod ModuleMap
pub mod Prelude
pub mod Processes
pub mod Tests
pub mod Validator
pub mod Vfs
pub mod Windows
