-- ===== src/Base/Texts.antt =====
-- Go strings and byte slices as lists of bytes, with the functions of Go's `strings`, `encoding/hex`
-- and `strconv` that the program calls.
mod Defs
mod Trim
mod Split
mod Hex
mod Decimal
mod Token
unfoldable pub use Defs.*
unfoldable pub use Trim.*
unfoldable pub use Split.*
unfoldable pub use Hex.*
unfoldable pub use Decimal.*
pub use Decimal.Laws.*
pub use Trim.Laws.*
pub use Token.*
