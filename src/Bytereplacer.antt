-- ===== src/Bytereplacer.antt =====
-- bytereplacer/bytereplacer.go: replacing parts of byte slices. Bytes are numbers below 256.
pub mod Trie
pub mod Generic
pub mod Buffer
pub mod Replace
pub mod New
mod Runs
