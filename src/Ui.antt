-- ===== src/Ui.antt =====
-- internal/ui/ui.go: the admin interface.
pub mod Types
pub mod Format
pub mod Form
pub mod Rows
pub mod Sample
pub mod Login
pub mod Sites
pub mod Handler
