-- ===== src/Tests/Windows/Validator.antt =====
-- Runs of the Windows branch of static_library_validator.c.
use hermetic_llvm.Validator.WindowsProcess.{
  run_redirected, utf8_to_wide, run, run_from, run_saved, redirect,
}
use hermetic_llvm.Windows.{wide_arguments}
use hermetic_llvm.Tests.Windows.{two_more, short_host, four_open, nm_command, bad_command}
use hermetic_llvm.Prelude.{◌≡◌, refl, true, some}

validator_run : (run two_more short_host nm_command (some 3) (some 4) four_open).value ≡ true
unfolding run run_from run_saved redirect run_redirected wide_arguments utf8_to_wide
validator_run = refl

validator_run-bad :
    (run two_more short_host bad_command (some 3) (some 4) four_open).left 1 ≡ some 14
unfolding run run_from run_saved redirect run_redirected wide_arguments utf8_to_wide
validator_run-bad = refl
