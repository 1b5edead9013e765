-- ===== src/Tests/Windows/DefFile.antt =====
-- Runs of the Windows branch of def_file_generator.c.
use hermetic_llvm.Windows.{wide_arguments}
use hermetic_llvm.Tests.Windows.{two_more, short_host, four_open, nm_command, bad_command}
use hermetic_llvm.DefFile.WindowsProcess.{run, run_redirected, utf8_to_wide, restore_out}
use hermetic_llvm.Prelude.{◌≡◌, refl, true, some}

def_file_run : (run two_more short_host nm_command 4 four_open).value ≡ true
unfolding run run_redirected wide_arguments utf8_to_wide
def_file_run = refl

def_file_run-bad : (run two_more short_host bad_command 4 four_open).left 1 ≡ some 11
unfolding run run_redirected wide_arguments utf8_to_wide restore_out
def_file_run-bad = refl
