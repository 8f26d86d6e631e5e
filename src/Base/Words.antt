-- ===== src/Base/Words.antt =====
-- Machine words as native numbers: the bits of a word, and the laws of `|`, `&`, `!` and `1 << i`.
mod Steps
mod Laws
mod Count
mod Fields
mod Lowest
pub use Steps.*
pub use Laws.*
pub use Count.*
pub use Fields.*
pub use Lowest.*
unfoldable pub use Laws.{bit}
unfoldable pub use Count.{trailing_zeros, leading_zeros, count_ones, set_bits}
