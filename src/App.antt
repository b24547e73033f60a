-- ===== src/App.antt =====
-- Package internal/application: what is kept with an application in secrets of its own.
pub mod Store
pub mod Environment
pub mod Bindings
pub mod Scaling
pub mod Bound
mod Tests
