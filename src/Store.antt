-- ===== src/Store.antt =====
-- The history store: `store/` of the engine crate.
pub mod Corruption
pub mod Codec
pub mod Text
pub mod JsonString
pub mod Revision
pub mod Node
pub mod Loader
pub mod IdSet
pub mod Dag
