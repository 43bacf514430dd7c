-- ===== src/Fs/Files.antt =====
-- `smart_fs_read`. The loops have fuel: the walk along the chain of clusters takes one step for each
-- cluster before the position, and the loop that reads brings at least one byte in a round.
pub mod Content
pub mod Brought
pub mod Reading
mod Tests
use smart_os.Base.{
  ℕ, zero, suc, ◌+◌, ◌-◌, ◌*◌, ◌/◌, ◌%◌, Bool, true, false, Option, none, some, u16, u32, sub_u32,
  ltb, leb, ◌==◌, ◌&&◌, not, if◌then◌else◌,
}
use smart_os.Block.{BlockDevice, block_read}
use smart_os.Fs.{Status, ok, error, invalid, Fs, File}
use smart_os.Fs.Fat.{is_ok, get_next_cluster}

-- `memcpy(dst + to, src + from, n)`
abbrev pub memcpy : (ℕ → ℕ) → ℕ → (ℕ → ℕ) → ℕ → ℕ → ℕ → ℕ
memcpy dst to src from n x = if leb to x && ltb x (to + n) then src (from + (x - to)) else dst x

-- The size that is asked for, cut to what the file holds behind the position.
abbrev pub cut_size : File → ℕ → ℕ
cut_size file size =
    let remaining = file.file_size - file.position in if ltb remaining size then remaining else size

-- The variables of the loop that reads.
pub record Reader (B : BlockDevice) : Type 0 where
  pub fs : Fs B
  pub file : File
  pub dst : ℕ → ℕ
  pub total_read : ℕ
  pub cluster : ℕ
  pub sector_offset : ℕ
  pub sector_buffer : ℕ → ℕ

module _ (B : BlockDevice) where
  -- The walk from `cluster` over `n` clusters, up to the end of the chain.
  pub skip_clusters : ℕ → Fs B → ℕ → ℕ × Fs B
  skip_clusters zero s cluster = (cluster, s)
  skip_clusters (suc n) s cluster =
      let (next, s) = get_next_cluster B s cluster in
      let rest = skip_clusters n s next in if next == 0xffff then (next, s) else rest

  abbrev pub wants_more : ℕ → Reader B → Bool
  wants_more size r = ltb r.total_read size && not (r.cluster == 0xffff)

  -- How many bytes of the sector a round takes.
  abbrev pub copy_size : ℕ → Reader B → ℕ
  copy_size size r =
      let rest = 512 - r.file.position % 512 in
      if ltb (size - r.total_read) rest then size - r.total_read else rest

  abbrev pub next_sector : Reader B → Reader B
  next_sector r =
      let offset = u32 (r.sector_offset + 1) in
      let (next, s) = get_next_cluster B r.fs r.cluster in
      if leb r.fs.sectors_per_cluster offset
      then record r { fs = s; cluster = next; sector_offset = 0 }
      else record r { sector_offset = offset }

  -- What a round does with the sector that was read.
  abbrev pub take_bytes : ℕ → Reader B → (ℕ → ℕ) → Reader B
  take_bytes size r buffer =
      let n = copy_size size r in
      record r {
        file = record r.file { position = u32 (r.file.position + n) };
        dst = memcpy r.dst r.total_read buffer (r.file.position % 512) n;
        total_read = u32 (r.total_read + n);
        sector_buffer = buffer;
      }

  -- Out of fuel it gives back what it has, as where nothing more is wanted. With the fuel that `read_file` gives, it
  -- is never out of it before nothing more is wanted: Reading shows this.
  pub read_loop : ℕ → ℕ → Reader B → Status × Reader B
  read_loop zero size r = (ok, r)
  read_loop (suc fuel) size r =
      let sector = u32 (
        r.fs.data_start_sector
        + sub_u32 r.cluster 2 * r.fs.sectors_per_cluster
        + r.sector_offset) in
      let (status, buffer) = block_read B r.fs.fs_device sector r.sector_buffer in
      let rest = read_loop fuel size (next_sector (take_bytes size r buffer)) in
      if wants_more size r then (if is_ok status then rest else (error, r)) else (ok, r)

  -- The reader where the loop begins, for a file that is not read to its end.
  pub begin_read : Fs B → File → (ℕ → ℕ) → (ℕ → ℕ) → Reader B
  unfolding skip_clusters
  begin_read s file buffer sector_buffer =
      let bytes_per_cluster = u32 (s.sectors_per_cluster * 512) in
      let (cluster, s) =
        skip_clusters (file.position / bytes_per_cluster) s (u16 file.first_cluster) in
      record {
        fs = s;
        file = file;
        dst = buffer;
        total_read = 0;
        cluster = cluster;
        sector_offset = file.position % bytes_per_cluster / 512;
        sector_buffer = sector_buffer;
      }

  -- What comes back: the status, the state, the handle, the buffer and `*bytes_read`, if it was written.
  pub record ReadResult : Type 0 where
    pub status : Status
    pub state : Fs B
    pub handle : File
    pub buffer : ℕ → ℕ
    pub bytes_read : Option ℕ

  abbrev pub finish_read : Status × Reader B → ReadResult
  finish_read (status, r) = record {
    status = status;
    state = r.fs;
    handle = r.file;
    buffer = r.dst;
    bytes_read = elim status [ ok ↦ some r.total_read | other ↦ none ];
  }

  -- The Boolean says whether none of the three pointers is `NULL`.
  pub read_file : Fs B → File → (ℕ → ℕ) → ℕ → Bool → (ℕ → ℕ) → ReadResult
  unfolding begin_read read_loop
  read_file s file buffer size false sector_buffer = record {
    status = invalid;
    state = s;
    handle = file;
    buffer = buffer;
    bytes_read = none;
  }
  read_file s file buffer size true sector_buffer =
      let n = cut_size file size in
      let read = finish_read (read_loop n n (begin_read s file buffer sector_buffer)) in
      if leb file.file_size file.position
      then record { status = ok; state = s; handle = file; buffer = buffer; bytes_read = some 0 }
      else read
