-- ===== src/Auth.antt =====
-- Package internal/auth: the actions, roles and users that decide what a request may do.
pub mod Action
pub mod Role
pub mod User
pub mod Secret
pub mod Service
pub mod Filter
pub mod Tests
