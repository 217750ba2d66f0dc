-- ===== src/Tests/Histories.antt =====
-- A history of the storage manager.
use s2_decentralised_storage.Storage.{StorageManager, load_chunk}
use s2_decentralised_storage.Tests.Disk.{c3, after}

abbrev later : StorageManager
later = (load_chunk after c3).0
