-- ===== src/Tests.antt =====
-- Runs of the model on concrete inputs, and the theorems applied to them.
mod Paths
mod Files
mod Chains
mod Mounting
mod Overlay
mod Layered
mod Patterns
mod Groups
mod Replacing
mod Braces
mod Arithmetic
mod Literals
mod Subscripts
mod Streams
