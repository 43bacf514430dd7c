-- ===== src/Fs/Fat.antt =====
-- The entries of the file allocation table, each of twelve bits, and the allocation of clusters. The
-- table's buffer is 512 bytes long; what the code reads and writes behind it is the byte at offset 512.
pub mod Entries
pub mod Seam
pub mod Allocation
use smart_os.Base.{
  ℕ, zero, suc, ◌+◌, ◌*◌, ◌/◌, ◌%◌, Bool, true, false, not, List, [], ◌∷◌, Option, u32, ◌==◌, leb,
  if◌then◌else◌,
}
use smart_os.Base.Chain.{update}
use smart_os.Block.{BlockDevice, block_read, block_write}
use smart_os.Block as Block
use smart_os.Fs.{Status, ok, error, Fs}

abbrev pub fat_offset : ℕ → ℕ
fat_offset cluster = cluster * 3 / 2

-- `SMART_BLOCK_OK`
abbrev pub is_ok : Block.Status → Bool
is_ok Block.ok = true
is_ok Block.error = false
is_ok Block.not_ready = false
is_ok Block.invalid = false

-- The twelve bits of an entry at offset `e`, and the buffer with the entry changed; `odd` is `cluster & 1`.
abbrev pub unpack : Bool → (ℕ → ℕ) → ℕ → ℕ
unpack true cache e = (cache (e + 1) * 256 + cache e) / 16
unpack false cache e = cache (e + 1) % 16 * 256 + cache e

abbrev pub pack : Bool → (ℕ → ℕ) → ℕ → ℕ → ℕ → ℕ
pack true cache e value =
    update (update cache e (cache e % 16 + value % 16 * 16)) (e + 1) (value / 16 % 256)
pack false cache e value =
    update (update cache e (value % 256)) (e + 1) (cache (e + 1) / 16 * 16 + value / 256 % 16)

module _ (B : BlockDevice) where
  abbrev pub fat_sector : Fs B → ℕ → ℕ
  fat_sector s cluster = u32 (s.fat_start_sector + fat_offset cluster / 512)

  unfoldable pub read_fat_entry : Fs B → ℕ → ℕ × Fs B
  read_fat_entry s cluster =
      let (status, cache) = block_read B s.fs_device (fat_sector s cluster) s.fat_cache in
      let s = record s { fat_cache = cache } in
      if is_ok status
      then (unpack (cluster % 2 == 1) cache (fat_offset cluster % 512), s)
      else (0xfff, s)

  pub get_next_cluster : Fs B → ℕ → ℕ × Fs B
  unfolding read_fat_entry
  get_next_cluster s cluster =
      let (next, s) = read_fat_entry s cluster in (if leb 0xff8 next then 0xffff else next, s)

  -- The changed sector is written to the sectors of the list, up to the first that fails.
  pub write_copies : Fs B → List ℕ → Status × Fs B
  write_copies s [] = (ok, s)
  write_copies s (k ∷ ks) =
      let (status, dev) = block_write B s.fs_device k s.fat_cache in
      let s = record s { fs_device = dev } in
      let rest = write_copies s ks in if is_ok status then rest else (error, s)

  pub write_fat_entry : Fs B → ℕ → ℕ → Status × Fs B
  unfolding write_copies
  write_fat_entry s cluster value =
      let k = fat_sector s cluster in
      let (status, cache) = block_read B s.fs_device k s.fat_cache in
      if is_ok status
      then write_copies
          (record s { fat_cache = pack (cluster % 2 == 1) cache (fat_offset cluster % 512) value })
          (k ∷ u32 (k + 1) ∷ [])
      else (error, record s { fat_cache = cache })

  -- The loop of `allocate_cluster` over `n` clusters from `cluster` on.
  pub allocate_from : ℕ → Fs B → ℕ → ℕ × Fs B
  allocate_from zero s cluster = (0, s)
  allocate_from (suc n) s cluster =
      let (value, s) = read_fat_entry s cluster in
      let rest = allocate_from n s (cluster + 1) in
      if value == 0
      then (let (status, s) = write_fat_entry s cluster 0xfff in (cluster, s))
      else rest

  pub allocate_cluster : Fs B → ℕ × Fs B
  unfolding allocate_from
  allocate_cluster s = allocate_from 0xfee s 2
