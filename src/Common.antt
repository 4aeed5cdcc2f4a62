-- ===== src/Common.antt =====
-- src/common and src/include/common: memory blocks, records of the catalog, rows, message buffers.
pub mod LinkedList
pub mod Memory
pub mod Define
pub mod Tuple
pub mod Attribute
pub mod Relation
pub mod Row
pub mod Bitmap
pub mod Message
