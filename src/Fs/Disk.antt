-- ===== src/Fs/Disk.antt =====
-- A disk of 64 sectors in memory, for the tests: empty, and with one file, "a.c".
use smart_os.Base.{ℕ, refl, some, ltb, ◌==◌, if◌then◌else◌, lt→ltb}
use smart_os.Block.{BlockDevice, IsLawful}
use smart_os.Block as Block
use smart_os.Fs.{Fs}

abbrev pub ram : BlockDevice
ram = record {
  Dev = ℕ → ℕ → ℕ;
  read = λ d k buffer. (
    if ltb k 64 then Block.ok else Block.error,
    λ i. if ltb k 64 then (if ltb i 512 then d k i else buffer i) else buffer i,
  );
  write = λ d k buffer. (
    if ltb k 64 then Block.ok else Block.error,
    λ j i. if ltb k 64 then (if j == k then buffer i else d j i) else d j i,
  );
}

abbrev pub ram_law : IsLawful ram
ram_law = record {
  sectors = λ d. 64;
  byte = λ d k i. d k i;
  read_ok = λ d k buffer h. rw (lt→ltb k 64 h) refl;
  read_byte = λ d k buffer i h. rw (lt→ltb k 64 h) refl;
  write_ok = λ d k buffer h. rw (lt→ltb k 64 h) refl;
  write_byte = λ d k buffer j i h l. rw (lt→ltb k 64 h) refl;
  write_sectors = λ d k buffer. refl;
}

abbrev pub disk : ℕ → ℕ → ℕ
disk k i = 0

abbrev pub mounted : Fs ram
mounted = record {
  fs_device = some disk;
  fat_start_sector = 1;
  root_dir_start_sector = 5;
  data_start_sector = 19;
  sectors_per_cluster = 1;
  fat_cache = λ x. 0;
}

abbrev pub disk_a : ℕ → ℕ → ℕ
disk_a k i =
    if k == 5
    then (if i == 0 then b'A' else if i == 8 then b'C' else if ltb i 11 then b' ' else 0)
    else 0

abbrev pub mounted_a : Fs ram
mounted_a = record mounted { fs_device = some disk_a }
