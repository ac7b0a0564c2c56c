-- ===== src/Table.antt =====
-- The table files (src/table): the builder writes blocks of key-value pairs with shared prefixes, and
-- the block iterator reads them back.
pub mod Header
pub mod Builder
pub mod Block
pub mod Iterator
pub mod Concat
