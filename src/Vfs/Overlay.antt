-- ===== src/Vfs/Overlay.antt =====
-- src/vfs/overlay_tree.rs and src/vfs/overlay.rs: the overlay filesystem. `Node` is its upper tree, `Tree` the methods of
-- `OverlayTree`; `Layers`, `Reads`, `Writes`, `Removal` and `Diff` are the methods of `OverlayFs` over a lower layer. The others
-- prove what their names say.
pub mod Node
pub mod Tree
pub mod Resurrect
pub mod Frame
pub mod Attach
pub mod InPlace
pub mod Whiteout
pub mod Walks
pub mod Layers
pub mod Reads
pub mod Writes
pub mod Removal
pub mod Hidden
pub mod Removed
pub mod Order
pub mod Ordered
pub mod Entries
pub mod Merged
pub mod Diff
pub mod Changes
pub mod Scaffolds
pub mod Open
pub mod Gone
