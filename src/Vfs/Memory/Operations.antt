-- ===== src/Vfs/Memory/Operations.antt =====
-- src/vfs/memory.rs: the methods of `InMemoryFs`. A method that writes takes the tree under the lock
-- and returns it with its result, on every path: an error leaves behind what was done before it.
-- `now` is the `SystemTime::now()` of the call.
pub mod Access
pub mod Files
pub mod Directories
pub mod Links
