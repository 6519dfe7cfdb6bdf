-- ===== src/Privacy.antt =====
-- The privacy gate, crates/aver-core/src/privacy.rs: what is refused before it enters memory.
-- Texts are lists of code points. A path is the text that `to_string_lossy` gives. Whether the
-- Shannon entropy of a token exceeds 4.5 is computed with f64 logarithms, and is an argument.
pub mod Paths
pub mod Content
pub mod Secrets
