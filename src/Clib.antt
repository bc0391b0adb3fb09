-- ===== src/Clib.antt =====
-- What the program uses of the C and C++ standard libraries, over byte strings: <string.h>,
-- std::string, atoi and "%d", the lines of fgets, and dates. A `char*` is a list of its bytes.
mod Text
mod Number
mod Lines
mod Date
pub mod Laws
unfoldable pub use Text.*
unfoldable pub use Number.*
unfoldable pub use Lines.*
unfoldable pub use Date.*
