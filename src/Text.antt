-- ===== src/Text.antt =====
-- The functions of Go's `strings` package that the program calls, over byte strings. Letters
-- outside ASCII have no case here, and only ASCII white space is trimmed.
mod Basic
mod Fields
mod Index
mod Replace
mod Split
unfoldable pub use Basic.*
unfoldable pub use Fields.*
unfoldable pub use Index.*
unfoldable pub use Replace.*
unfoldable pub use Split.*
