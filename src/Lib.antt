-- ===== src/Lib.antt =====
-- rust-bash: a bash interpreter over a virtual filesystem (src/). This library models the parts of it that
-- hold its own core logic: paths, the in-memory filesystem, the mount table and the overlay, glob patterns, brace
-- expansion, arithmetic, and byte streams in strings.
--
-- How the parts interact. A command line is brace-expanded first (src/interpreter/brace.rs), a text
-- transformation. Words are then matched and globbed with the matcher of src/interpreter/pattern.rs. Every
-- file access of a command goes through the trait `VirtualFs` of src/vfs/mod.rs, with a path that `vfs_resolve`
-- has made absolute; `InMemoryFs` of src/vfs/memory.rs is its main implementation, `MountableFs` of
-- src/vfs/mountable.rs routes to several, and `OverlayFs` of src/vfs/overlay.rs keeps its writes in the tree of
-- src/vfs/overlay_tree.rs, over a directory of the host that it only reads. An expression of `$((…))` is a
-- text that src/interpreter/arithmetic.rs prepares, has parsed and evaluates. Output of commands becomes text by src/shell_bytes.rs.
--
-- Files:
--   Prelude: shared types; Bytes for `str` and `[u8]`, Result for `Result`.
--   Vfs/Path: the path functions of src/vfs/mod.rs, under their names, and `components` of memory.rs. `split`,
--     `segments` and `join` are the three steps of `vfs_normalize_checked`, and `lossy_segments` is the loop of
--     `vfs_normalize`. Vfs/Path/Names has the
--     specification: the list of component names of a normalised path.
--   Vfs/Node: `FsNode`, and the `BTreeMap` of a directory as a list of entries in the order of their names.
--   Vfs/Memory/Navigate: `navigate`, `resolve_if_symlink`, `resolve_canonical`,
--     `resolve_canonical_from_root` and `navigate_to_mut`; a loop over components is a walk over their list.
--   Vfs/Memory/Operations: the operations of the trait, under their names. Each takes the tree and
--     returns a tree and a result, so that a failed operation shows what it has changed. A closure that
--     edits a node behind `navigate_mut` is a function from the node to a node and a result.
--   Vfs/Fs: the trait `VirtualFs` as an interface, and what a caller relies on. Vfs/Memory/Backend fills it.
--   Vfs/Mount/Table, Vfs/Mount/Operations: `MountableFs` of src/vfs/mountable.rs over any backend. The mounts are
--     a list in the order of their keys, each the components of a path, with the state of the filesystem there;
--     a filesystem has one mount, so one backend behind two mount points is not modelled, and the text of a key is that
--     of its components. Vfs/Mount/Lawful makes it a backend in its turn.
--   Vfs/Overlay/Node, Vfs/Overlay/Tree: `OverlayTree` of src/vfs/overlay_tree.rs, which is the root's children. The
--     probes of the lower layer are arguments, as in the source; a write through a reference puts the node back.
--   Vfs/Overlay/Layers, Reads, Writes, Removal, Diff: `OverlayFs` of src/vfs/overlay.rs. The upper tree is passed on; the
--     host's filesystem is the record `Lower`. `resolve_walk` and `write_scan` are the loops over components, which take
--     what is done behind a link as a function, so that the depth and the hops left are counted down.
--   Pattern/Class, Pattern/Glob: `match_char_class` and `glob_match_inner`. An index into a slice is the rest of
--     the slice from there, and one round of the loop is an `Action` and what is done with it.
--   Pattern/Ext: `ext_match` and its groups. `room` counts the depth down to `MAX_EXTGLOB_DEPTH`; `next_step` is one
--     call up to its tail call at the same depth.
--   Pattern/Replace: `first_match_ext_with_mode` and `replace_all_ext_with_mode`, over the test that they call.
--   Pattern/Affix: the searches for the longest and shortest suffix and prefix, over the test that they call.
--   Brace/Scan, Brace/Sequence, Brace/Expand: the scanners, `try_sequence_expansion` and
--     `expand_recursive`. An `i64` is the ℕ that is 2 ^ 63 above it.
--   Arith/Word, Arith/Numbers, Arith/Strip: the operators, the readers of numbers and `strip_and_validate` of
--     src/interpreter/arithmetic.rs. Here an `i64` is its 64-bit pattern, a ℕ below 2 ^ 64.
--   Arith/Keys: the pass over quoted subscripts, and `eval_arithmetic`, with the parser of the package as an argument.
--   Arith/Syntax, Arith/Store, Arith/Eval: the syntax tree with the constructors that `eval` matches, the interface
--     to the variables, and `Evaluator`, which threads the state and leaves it on errors too.
--   ShellBytes: src/shell_bytes.rs, with a `String` as its list of characters and the UTF-8 of the standard library.
--   Tests: runs on concrete inputs and the theorems applied to them.
-- The other files hold proofs and are named for what they are about.
--
-- Bounds and fuel. Navigation and extended globs count the depth of the source down (40 and 64 at the
-- outside) and need no fuel for it.
-- `glob_match_inner` has (|text| + 1) * (|pattern| + 1) rounds, `brace_expand` as many levels as the input has
-- bytes and one more, and a sequence loop one round more than `max_results`: a round shortens the text that the
-- last star has or the pattern, a recursive call is on a shorter text, and a sequence stops at the limit. A
-- loop over the upper tree with a stack has a round for each time that a node comes off the stack.
-- `strip_and_validate` and the pass over subscripts have a round for each byte, since a piece is shorter than
-- what it is cut from, and `wrapping_pow` has one for each bit of an exponent.
-- Arithmetic on sizes and file ids is on ℕ: no 64-bit counter of the source is close to its end. In release
-- builds `-val` of the least `i64` wraps, and the model does.
--
-- Not modelled: locks (`RwLock` guards one operation at a time, so an operation is one step), the clock (a time
-- is an argument `now`), texts that are not UTF-8 but in ShellBytes, Windows drive paths, globbing over the
-- tree, `rename`, `glob` and `new` of src/vfs/overlay.rs, the variables behind the arithmetic evaluator, the
-- interpreter, its builtins and the commands. The syntax trees and their parser are those of a package.
pub mod Prelude
pub mod Vfs
pub mod Pattern
pub mod Brace
pub mod Arith
pub mod ShellBytes
mod Tests
