-- ===== src/Vfs/Memory.antt =====
-- src/vfs/memory.rs: `Navigate` walks the tree, `Operations` are the methods of `InMemoryFs`, and the
-- other modules prove what their names say.
pub mod Navigate
pub mod Operations
pub mod Walks
pub mod Canonical
pub mod Agreement
pub mod Success
pub mod Shape
pub mod Update
pub mod Relocate
pub mod ReadWrite
pub mod Attributes
pub mod Fresh
pub mod Backend
