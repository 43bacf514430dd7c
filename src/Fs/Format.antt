-- ===== src/Fs/Format.antt =====
-- `smart_fs_init` and `smart_fs_format`. `total_sectors` is the field of the device; `sector_buffer` is
-- what the array on the stack holds at first.
pub mod Runs
pub mod Layout
mod Tests
use smart_os.Base.{
  ℕ, zero, suc, ◌+◌, ◌-◌, ◌*◌, ◌/◌, ◌%◌, Bool, true, false, Option, none, some, List, [], ◌∷◌, ◌++◌,
  u16, u32, sub_u32, ltb, ◌==◌, ◌||◌, not, if◌then◌else◌,
}
use smart_os.Block.{BlockDevice, block_read, block_write}
use smart_os.Fs.{Status, ok, error, not_found, invalid, Fs}
use smart_os.Fs.Fat.{is_ok}
use smart_os.Fs.Dir.{put_bytes, le16, le32, get16}

abbrev pub zeros : ℕ → ℕ
zeros x = 0

abbrev pub sectors_per_fat : ℕ → ℕ
sectors_per_fat total_sectors =
    let data_sectors = sub_u32 (sub_u32 total_sectors 1) (224 * 32 / 512) in
    u16 (u32 (u32 (data_sectors * 3) / 2 + 511) / 512 + 1)

-- The fields of `fat12_bpb_t`, one behind the other.
abbrev pub bpb : ℕ → List ℕ
bpb total_sectors =
    0xeb ∷ 0x3c ∷ 0x90 ∷ b'S' ∷ b'M' ∷ b'A' ∷ b'R' ∷ b'T' ∷ b'O' ∷ b'S' ∷ b' ' ∷ le16 512
    ++ 1 ∷ le16 1
    ++ 2 ∷ le16 224
    ++ le16 (if ltb total_sectors 65536 then total_sectors else 0)
    ++ 0xf8 ∷ le16 (sectors_per_fat total_sectors)
    ++ le16 1
    ++ le16 1
    ++ le32 0
    ++ le32 (if ltb total_sectors 65536 then 0 else total_sectors)

pub boot_sector : ℕ → ℕ → ℕ
unfolding put_bytes
boot_sector total_sectors = put_bytes (0x55 ∷ 0xaa ∷ []) 510 (put_bytes (bpb total_sectors) 0 zeros)

pub fat_head : ℕ → ℕ
unfolding put_bytes
fat_head = put_bytes (0xf8 ∷ 0xff ∷ 0xff ∷ []) 0 zeros

-- What the loop over a table's sectors does to the buffer behind the write of sector `i`.
abbrev pub clear_behind_first : ℕ → (ℕ → ℕ) → ℕ → ℕ
clear_behind_first i buffer x = if i == 0 then 0 else buffer x

module _ (B : BlockDevice) where
  -- A loop that writes `n` sectors from `start + i` on; `after` is what it does to the buffer behind each.
  pub write_run :
      (ℕ → (ℕ → ℕ) → ℕ → ℕ) → ℕ → ℕ → ℕ → Option B.Dev → (ℕ → ℕ) → Status × Option B.Dev × (ℕ → ℕ)
  write_run after zero i start dev buffer = (ok, dev, buffer)
  write_run after (suc n) i start dev buffer =
      let (status, dev) = block_write B dev (u32 (start + i)) buffer in
      let rest = write_run after n (i + 1) start dev (after i buffer) in
      if is_ok status then rest else (error, dev, buffer)

  abbrev pub next_table :
      Status × Option B.Dev × (ℕ → ℕ)
      → (Option B.Dev → (ℕ → ℕ) → Status × Option B.Dev)
      → Status × Option B.Dev
  next_table (status, dev, buffer) next = elim status [
    | ok ↦ next dev buffer
    | other ↦ (other, dev)
  ]

  -- The outer loop over the tables, `n` of them from table `fat` on.
  pub write_fats : ℕ → ℕ → ℕ → Option B.Dev → (ℕ → ℕ) → Status × Option B.Dev
  unfolding write_run
  write_fats zero fat spf dev buffer = (ok, dev)
  write_fats (suc n) fat spf dev buffer =
      next_table (write_run clear_behind_first spf 0 (1 + fat * spf) dev buffer)
        (λ dev buffer. write_fats n (fat + 1) spf dev buffer)

  -- One part of formatting after another, up to the first that fails.
  abbrev pub and_then :
      Status × Option B.Dev → (Option B.Dev → Status × Option B.Dev) → Status × Option B.Dev
  and_then (status, dev) next = elim status [ ok ↦ next dev | other ↦ (other, dev) ]

  pub write_boot : ℕ → Option B.Dev → Status × Option B.Dev
  unfolding boot_sector
  write_boot total_sectors dev =
      let (status, dev) = block_write B dev 0 (boot_sector total_sectors) in
      (if is_ok status then ok else error, dev)

  pub write_root : ℕ → Option B.Dev → Status × Option B.Dev
  unfolding write_run
  write_root spf dev =
      let (status, dev, buffer) =
        write_run (λ i buffer. buffer) ((224 * 32 + 511) / 512) 0 (1 + 2 * spf) dev zeros in
      (status, dev)

  pub format : Option B.Dev → ℕ → Status × Option B.Dev
  unfolding write_boot write_fats write_root fat_head
  format none total_sectors = (invalid, none)
  format (some dev) total_sectors =
      let spf = sectors_per_fat total_sectors in
      and_then (and_then (write_boot total_sectors (some dev)) (λ d. write_fats 2 0 spf d fat_head))
        (write_root spf)

  -- `smart_fs_init`: what it takes from the boot sector.
  abbrev pub take_bpb : Fs B → (ℕ → ℕ) → Status × Fs B
  take_bpb s buffer =
      let bytes_per_sector = get16 buffer 11 in
      if not (bytes_per_sector == 512)
      then (if bytes_per_sector == 0 || bytes_per_sector == 0xffff then not_found else error, s)
      else (let fat_start = get16 buffer 14 in
          let root = u32 (fat_start + buffer 16 * get16 buffer 22) in
          (
            ok,
            record s {
              sectors_per_cluster = buffer 13;
              fat_start_sector = fat_start;
              root_dir_start_sector = root;
              data_start_sector = u32 (root + (get16 buffer 17 * 32 + 511) / 512);
            },
          ))

  pub init : Fs B → Option B.Dev → (ℕ → ℕ) → Status × Fs B
  init s none sector_buffer = (invalid, s)
  init s (some dev) sector_buffer =
      let s = record s { fs_device = some dev } in
      let (status, buffer) = block_read B (some dev) 0 sector_buffer in
      if is_ok status then take_bpb s buffer else (error, s)
