-- ===== src/Double.antt =====
-- What the program does with `double` and `float`: an interface to IEEE 754 arithmetic, which is
-- the hardware's. A `float` is kept as its 32-bit pattern, and is widened before it is used.
mod Core
pub mod Fixed
unfoldable pub use Core.*
