-- ===== src/Tests/Windows/Link.antt =====
-- Runs of the Windows branch of link_wrapper.c.
use hermetic_llvm.LinkWrapper.WindowsProcess.{run_redirected, run_process, run_process_with_stdout}
use hermetic_llvm.Tests.Windows.{two_more, short_host, nm_command, four_open}
use hermetic_llvm.Prelude.{◌≡◌, refl}

link_run : (run_process_with_stdout two_more short_host nm_command 4 four_open).0 ≡ 3
unfolding run_process_with_stdout run_redirected run_process
link_run = refl
