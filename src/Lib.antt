-- ===== src/Lib.antt =====
-- kanekfs, the user space file system: its bitmaps, element cache and page cache, super block,
-- file system builder, slots, configuration, hashes, dictionary, lists and garbage collector,
-- random numbers and the trimming of text.
--
-- Parts. fs/map.c keeps track of free blocks and slots in bitmaps; the super block and the slot
-- code ask it for free bits and mark extents in use. fs/cache.c keeps elements in memory, with a
-- thread that flushes and evicts them; the page cache is its client, and its callbacks write
-- blocks to the device. fs/dict.c keeps typed values by name, in a growing array whose entries
-- also carry the hash of their key from fs/hash.c. fs/kfs_mkfs.c computes the sizes of a new file
-- system and writes it, with the bitmaps of fs/map.c, and fs/kfs_super.c verifies and mounts it.
--
-- Files. Base holds what the parts share: Boolean tests, lists over native numbers, the `int`
-- results as ℤ. Bits has the laws of binary digits.
--
-- Map is fs/map.c with fs/map.h. A bitmap is a list of bytes. A read or write outside of it is
-- `none`, a fault, so a result `some` also says that the code stays inside its buffer.
--   Map/Byte: byte_set_bits, byte_get_bit, byte_count_bits, byte_find_gap
--   Map/Bitmap: bm_set_bit, bm_get_bit
--   Map/Extent: bm_set_extent, in the three parts that its comments name
--   Map/Count: bm_count
--   Map/Find: bm_find
--   Map/Grow: bm_extent_can_grow
-- The laws read a bitmap as a sequence of bits (Map/Bitmap/Sequence, `bit` and `IsWritten`), and
-- describe runs and gaps of bits (`IsRun`, `GapSpec`).
--
-- Cache is fs/cache.c with fs/cache.h. Its state is `Cache`: the array of pointers as a list of
-- slots, the number of elements in use, and the flags.
--   Cache/Marks: the marks and pins of an element
--   Cache/Evict: the flush of an element, cache_element_evict_by_idx, cache_element_evict
--   Cache/Lookup: cache_lookup
--   Cache/Mapping: cache_init, cache_element_map
--   Cache/Thread: one pass of cache_thread, between the lock and the unlock of ca_mutex
--   Cache/Control: the operations on the flags, cache_sync, the marks of cache_disable
--   Cache/Waiting: cache_wait_for_flags, cache_element_wait_for_flags
-- The invariant is `IsValid` of Cache/Invariant. Every function that takes ca_mutex is one step;
-- an element that another thread has locked is named by the parameter `busy` of a pass.
--
-- PageCache is fs/page_cache.c, on the element cache and with the extents of fs/eio.c. The part
-- of an element behind its cache_element_t is found by the address of the element.
--   PageCache/Mapped: what a mapping of blocks that were not cached leaves
--
-- Hash is fs/hash.c.
--   Hash/Base79: ascii_2_mx79 and hash_b79, and, in Codes, Words and Hashes, the order of words
--   Hash/Xxh: the constants, rotations and reads; Wide has xxh64, Narrow has xxh32
--
-- Dict is fs/dict.c with fs/dict.h; it calls hash_b79 for the key of a new entry.
--   Dict/Strings: strncpy and strncmp as they are used there
--   Dict/Entries: the operations
--   Dict/Keys: the hash of a key that has no NUL
--   Dict/Types: the names of the types
-- The abstract view of a dictionary is the list of its entries in use, `contents` of Dict/Store,
-- with `lookup` for what a key stands for; Growth, Refines and Lookups relate the two.
--
-- Gc is fs/list.h and fs/gc.c. Memory is a pair of fields at every address; `IsRing` of Gc/Ring
-- says which nodes a list holds, and `IsHeap` of Gc/Nodes that they were not freed. A read of a
-- freed node is a fault, `none`.
--   Gc/Insert, Gc/Tail, Gc/Remove: list_add, list_add_tail and list_del
--   Gc/Walk, Gc/Destroy: gc_list_total_mem and gc_list_destroy
--   Gc/Nodes: gc_malloc and gc_free
-- Disk is fs/kfs_disk.h, and block_read and block_write of fs/eio.c. Every access of the code is
-- to a whole field at the offset of that field, so a page is a number at each offset, the field
-- that starts there, and a device is a page for each block. Mkfs is fs/kfs_mkfs.c.
--   Mkfs/Numbers, Mkfs/Parse: validate_size, validate_num and parse_opts
--   Mkfs/Floats, Mkfs/Compute: compute_values, with its `float` arithmetic
--   Mkfs/Superblock, Mkfs/Tables, Mkfs/Build: the functions that write the parts of a file system
--   Mkfs/Rounding, Mkfs/Parts, Mkfs/Sizes: bounds of the sizes
--   Mkfs/Written, Mkfs/Result, Mkfs/Final: what is on the device at the end
--   Mkfs/Marks, Mkfs/Occupied, Mkfs/Regions, Mkfs/Used: the map of the blocks
-- Super is fs/kfs_super.c with fs/kfs_mem.h.
--   Super/Verify, Super/Checks, Super/Built: kfs_verify, also on what the builder wrote
--   Super/Memory, Super/Mount: the copy in memory, kfs_mount and kfs_umount
--
-- Config is kfs_config_read of fs/kfs_config.c, and of fs/kfs_io.c, which has the same text.
--   Config/Lines, Config/Trim, Config/Words: the lines of a file, their ends and their tokens
--   Config/Settings, Config/Cycle: files of settings, and a printed configuration
-- Slot is fs/kfs_slot.c, with the extents of fs/eio.c; Slot/Failing says how its functions end.
--
-- Rand is fs/krand64.c. Text is `trim` of fs/utils.c.
--
-- Machine words. `uint64_t`, `uint32_t` and `uint8_t` are numbers cut off by `u64`, `u32` and
-- `u8` where the code can wrap. Where a theorem needs a bound it says so.
--
-- Fuel. The loops over bytes and digits recurse on a number of rounds that the length of the map,
-- the eight digits of a byte, or the length of the input make enough; the walks of a list take
-- rounds, and one more than its nodes are enough. The theorems state a result and not only what
-- holds of one. The two waits take the list of what their wake-ups observe.
--
-- Bounds. The theorems on whole file systems are for files of 10 megabytes or more and below a
-- gigabyte: from there on the numbers of blocks no longer fit the 16-bit fields of an extent.
--
-- Parameters. The two callbacks of a cache are functions on a state of the caller. Whether malloc
-- and pthread_mutex_init succeed, and the address that malloc gives, are arguments, and so are
-- the pages of pages_alloc, which no file of the repository defines, the options that getopt
-- gives, the answer of stat, the time, and the results of the page cache in a mount. How many
-- bytes lie at the address that pages_alloc gives to build_slots is the argument `room`, and what
-- lies behind the key of a new entry of a dictionary, where strlen may read on, the argument
-- `behind`.
--
-- Faults. A function is `none`, or stops with a fault, where the code does what C leaves
-- undefined and the result depends on it: a slot that build_slots writes past the memory it has,
-- a copy by memcpy or strcpy between areas that overlap, a number of bytes that an `int` cannot
-- hold, a read before the start of a string.
--
-- Not modelled: creation and join of the thread, time and sleeps; the building of a value for a
-- dictionary and its display; the copies and the sweep of the garbage collector; what is printed:
-- kfs_superblock_display, the messages of kfs_verify, the results and the helps of the builder;
-- the end of the page cache, which is the end of its cache; the slot cache, which does not
-- compile; and the server, which is calls of the system.
pub mod Base
pub mod Bits
pub mod Map
pub mod Cache
pub mod Hash
pub mod Dict
pub mod Gc
pub mod Rand
pub mod Text
pub mod Disk
pub mod Mkfs
pub mod Super
pub mod Slot
pub mod Config
pub mod PageCache
mod Tests
