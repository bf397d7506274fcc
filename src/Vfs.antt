-- ===== src/Vfs.antt =====
-- src/vfs: the virtual filesystem. `Path` is the path algebra of src/vfs/mod.rs, `Node` the tree,
-- `Memory` the in-memory filesystem of src/vfs/memory.rs, `Mount` the mount table, and `Overlay` the upper layer of the overlay.
pub mod Path
pub mod Node
pub mod Memory
pub mod Fs
pub mod Mount
pub mod Overlay
