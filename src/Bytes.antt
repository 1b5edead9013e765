-- ===== src/Bytes.antt =====
-- C strings as lists of the bytes before the terminating zero, and the parts of <string.h> and
-- <ctype.h> (in the "C" locale, which the tools never leave) that the tools under tools/ call.
mod Ctype
mod Compare
mod Search
unfoldable pub use Ctype.*
unfoldable pub use Compare.*
unfoldable pub use Search.*
