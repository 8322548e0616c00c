-- ===== src/Files/Shards/Whole.antt =====
-- The removal of a name from a sharded directory, along the whole path to it.
