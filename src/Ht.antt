-- ===== src/Ht.antt =====
-- src/ht.c and include/draugr/ht_internal.h: the single-threaded hash table.
pub mod Slot
pub mod Bare
pub mod Table
