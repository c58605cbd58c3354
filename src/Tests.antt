-- ===== src/Tests.antt =====
-- The theorems at concrete inputs, and runs of the code.
mod Bitmaps
mod Caches
mod Hashes
mod Dicts
mod Nodes
mod Slots
mod Texts
mod Builds
mod Configs
mod PageCaches
