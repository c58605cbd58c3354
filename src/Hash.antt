-- ===== src/Hash.antt =====
-- The hashes of fs/hash.c: the one for names, in base 79, and the two of the xxh family.
pub mod Base79
pub mod Xxh
