-- ===== src/Pattern.antt =====
-- src/interpreter/pattern.rs: shell patterns. `Class` reads bracket expressions, `Glob` is the matcher
-- with its backtracking, `Affix` and `Replace` search with it, `Ext` is the extended matcher, and the others prove what their names say.
pub mod Class
pub mod Glob
pub mod Actions
pub mod Shape
pub mod Matches
pub mod Search
pub mod Decides
pub mod Affix
pub mod Replace
pub mod Ext
