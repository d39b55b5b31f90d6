-- ===== src/Buffers.antt =====
-- include/SlamCore/data: the schema of an item, the buffers that hold items as bytes, the views of
-- them and the collections of buffers.
pub mod Schema
pub mod Layout
pub mod Buffer
mod Bytes
pub mod Contents
pub mod Copies
pub mod Collection
pub mod Select
pub mod Views
pub mod Bounds
pub mod Related
pub mod Selection
pub mod Appending
