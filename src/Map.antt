-- ===== src/Map.antt =====
-- The bitmap of fs/map.c: `bm_set_bit`, `bm_get_bit`, `bm_set_extent`, `bm_count`, `bm_find` and
-- `bm_extent_can_grow`, over the helpers on one byte in Map/Byte.
pub mod Byte
pub mod Bitmap
pub mod Extent
pub mod Count
pub mod Find
pub mod Grow
