-- ===== src/Fs/Writing.antt =====
-- `smart_fs_write`. The walk to the end of the file takes one step for each cluster that is full, and the
-- loop that writes stores at least one byte in a round.
pub mod Bounds
pub mod Cluster
pub mod ReadBack
pub mod NewFile
mod Tests
use smart_os.Base.{
  ℕ, zero, suc, ◌+◌, ◌-◌, ◌*◌, ◌/◌, ◌%◌, Bool, true, false, ◌||◌, ◌&&◌, Option, none, some, u16,
  u32, sub_u32, ltb, ◌==◌, if◌then◌else◌,
}
use smart_os.Block.{BlockDevice, block_read, block_write}
use smart_os.Block as Block
use smart_os.Fs.{Status, ok, error, invalid, full, Fs, File}
use smart_os.Fs.Fat.{is_ok, get_next_cluster, write_fat_entry, allocate_cluster}
use smart_os.Fs.Files.{memcpy}

-- The variables of the loop that writes.
pub record Writer (B : BlockDevice) : Type 0 where
  pub fs : Fs B
  pub file : File
  pub total_written : ℕ
  pub cluster : ℕ
  pub sector_buffer : ℕ → ℕ

-- What comes back: the status, the state, the handle and `*bytes_written`, if it was written.
pub record WriteResult (B : BlockDevice) : Type 0 where
  pub status : Status
  pub state : Fs B
  pub handle : File
  pub bytes_written : Option ℕ

module _ (B : BlockDevice) where
  -- A new cluster behind `cluster` in its chain, if one is free; what `write_fat_entry` returns is not looked at.
  pub extend_chain : Fs B → ℕ → Option ℕ × Fs B
  extend_chain s cluster =
      let (new, s) = allocate_cluster B s in
      if new == 0 then (none, s) else (some new, (write_fat_entry B s cluster new).1)

  -- The walk to the end of the file, over `n` clusters.
  pub next_or_new : Fs B → ℕ → Option ℕ × Fs B
  unfolding extend_chain
  next_or_new s cluster =
      let (next, s) = get_next_cluster B s cluster in
      if next == 0xffff then extend_chain s cluster else (some next, s)

  pub seek_end : ℕ → Fs B → ℕ → Option ℕ × Fs B
  unfolding next_or_new
  seek_end zero s cluster = (some cluster, s)
  seek_end (suc n) s cluster =
      let (next, s) = next_or_new s cluster in
      elim next [ none ↦ (none, s) | some c ↦ seek_end n s c ]

  abbrev pub cluster_bytes : Fs B → ℕ
  cluster_bytes s = u32 (s.sectors_per_cluster * 512)

  -- Where the next byte goes: the sector, and the offset in it.
  abbrev pub sector_of_end : Writer B → ℕ
  sector_of_end w = u32 (
      w.fs.data_start_sector
      + sub_u32 w.cluster 2 * w.fs.sectors_per_cluster
      + w.file.file_size % cluster_bytes w.fs / 512)

  abbrev pub offset_of_end : Writer B → ℕ
  offset_of_end w = w.file.file_size % cluster_bytes w.fs % 512

  abbrev pub write_size : ℕ → Writer B → ℕ
  write_size size w =
      let rest = 512 - offset_of_end w in
      if ltb (size - w.total_written) rest then size - w.total_written else rest

  -- The sector is read first unless it is filled from its beginning to its end.
  abbrev pub load_sector : ℕ → Writer B → Block.Status × (ℕ → ℕ)
  load_sector size w =
      if ltb 0 (offset_of_end w) || ltb (size - w.total_written) 512
      then block_read B w.fs.fs_device (sector_of_end w) w.sector_buffer
      else (Block.ok, w.sector_buffer)

  abbrev pub stored : ℕ → Writer B → Writer B
  stored n w = record w {
    file = record w.file {
      file_size = u32 (w.file.file_size + n);
      position = u32 (w.file.position + n);
    };
    total_written = u32 (w.total_written + n);
  }

  -- A round up to the new counts; the Boolean says whether no sector failed.
  pub put_sector : ℕ → (ℕ → ℕ) → Writer B → Bool × Writer B
  put_sector size src w =
      let (read, loaded) = load_sector size w in
      let n = write_size size w in
      let buffer = memcpy loaded (offset_of_end w) src w.total_written n in
      let (written, dev) = block_write B w.fs.fs_device (sector_of_end w) buffer in
      let w' = record w { fs = record w.fs { fs_device = dev }; sector_buffer = buffer } in
      if is_ok read then (is_ok written, if is_ok written then stored n w' else w') else (false, w)

  -- The end of a round; the Boolean says whether the writing can go on.
  pub grow : ℕ → Writer B → Bool × Writer B
  unfolding extend_chain
  grow size w =
      let (new, s) = extend_chain w.fs w.cluster in
      if w.file.file_size % cluster_bytes w.fs == 0 && ltb w.total_written size
      then elim new [
        | none ↦ (false, record w { fs = s })
        | some c ↦ (true, record w { fs = s; cluster = c })
      ]
      else (true, w)

  pub write_loop : ℕ → ℕ → (ℕ → ℕ) → Writer B → Status × Writer B
  write_loop zero size src w = (ok, w)
  write_loop (suc fuel) size src w =
      let (stored, w₁) = put_sector size src w in
      let (grown, w₂) = grow size w₁ in
      let rest = write_loop fuel size src w₂ in
      if ltb w.total_written size
      then (if stored then (if grown then rest else (full, w₂)) else (error, w₁))
      else (ok, w)

  abbrev pub failed : Status → Fs B → File → WriteResult B
  failed status s file = record { status = status; state = s; handle = file; bytes_written = none }

  -- `*bytes_written` is set where the function returns from behind the loop, or for want of a cluster in it.
  abbrev pub finish_write : Status × Writer B → WriteResult B
  finish_write (status, w) = record {
    status = status;
    state = w.fs;
    handle = w.file;
    bytes_written = elim status [ error ↦ none | other ↦ some w.total_written ];
  }

  -- The rest of the function, for a file with a first cluster.
  pub append : Fs B → File → (ℕ → ℕ) → ℕ → (ℕ → ℕ) → WriteResult B
  unfolding seek_end write_loop
  append s file src size sector_buffer =
      let (end, s) = seek_end (file.file_size / cluster_bytes s) s (u16 file.first_cluster) in
      elim end [
        | none ↦ failed full s file
        | some cluster ↦ finish_write (
            write_loop size size src (record {
              fs = s;
              file = file;
              total_written = 0;
              cluster = cluster;
              sector_buffer = sector_buffer;
            }))
      ]

  -- The Boolean says whether none of the three pointers is `NULL`.
  pub write_file : Fs B → File → (ℕ → ℕ) → ℕ → Bool → (ℕ → ℕ) → WriteResult B
  unfolding append
  write_file s file src size false sector_buffer = failed invalid s file
  write_file s file src size true sector_buffer =
      let (first, s₁) = allocate_cluster B s in
      let fresh = record file { first_cluster = first; current_cluster = first } in
      if file.first_cluster == 0
      then (if first == 0
          then failed full s₁ (record file { first_cluster = 0 })
          else append s₁ fresh src size sector_buffer)
      else append s file src size sector_buffer
