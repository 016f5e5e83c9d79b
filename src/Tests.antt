-- ===== src/Tests.antt =====
-- Runs of the readers on small stores.
pub mod Data
pub mod Codecs
pub mod Headers
pub mod Trees
pub mod Blocks
pub mod Heaps
pub mod Values
pub mod Contexts
pub mod Tables
pub mod Folders
