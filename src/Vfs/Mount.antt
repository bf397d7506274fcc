-- ===== src/Vfs/Mount.antt =====
-- src/vfs/mountable.rs: `Table` finds the mount of a path, `Operations` are the methods of `MountableFs`, and
-- the others prove what their names say.
pub mod Table
pub mod Operations
pub mod Order
pub mod Routing
pub mod Lawful
pub mod Mounted
