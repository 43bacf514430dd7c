-- ===== src/Block.antt =====
-- drivers/smart_block.c and its header: a block device, and the storage of the board as one. A buffer and
-- the memory are functions from an offset or an address to a byte.
pub mod Sectors
mod Tests
use smart_os.Base.{
  ℕ, zero, suc, ◌+◌, ◌*◌, ◌/◌, ◌<◌, ◌≡◌, Bool, true, false, not, ◌||◌, Option, none, some, Ptr,
  null, u32, ltb, ◌==◌, if◌then◌else◌,
}
use smart_os.Base.Chain.{update}

-- `smart_block_status_t`
pub data Status : Type 0 where
  ok error not_ready invalid : Status

-- The device's private data, the two static variables, and the memory that they are about.
pub record Flash : Type 0 where
  pub initialized : Bool
  pub total_sectors : ℕ
  pub flash_base : Ptr
  pub flash_size : ℕ
  pub mem : Ptr → ℕ

-- `to[i] = from[i]` for `n` bytes, from byte `i` on.
pub copy_bytes : ℕ → ℕ → (Ptr → ℕ) → Ptr → (Ptr → ℕ) → Ptr → Ptr → ℕ
copy_bytes zero i source src target dst = target
copy_bytes (suc n) i source src target dst =
    copy_bytes n (i + 1) source src (update target (dst + i) (source (src + i))) dst

-- The checks that reading and writing begin with; the Boolean says whether `buffer` is not `NULL`.
pub refusal : Flash → ℕ → Bool → ℕ → Option Status
refusal f sector buffer count =
    if not f.initialized || not buffer || count == 0
    then some invalid
    else if ltb f.total_sectors (u32 (sector + count))
    then some error
    else if f.flash_base == 0
    then some error
    else if ltb f.flash_size (u32 (u32 (sector * 512) + u32 (count * 512)))
    then some error
    else none

pub flash_read : Flash → ℕ → Option (ℕ → ℕ) → ℕ → Status × Option (ℕ → ℕ)
unfolding refusal copy_bytes
flash_read f sector none count = (invalid, none)
flash_read f sector (some buffer) count = elim (refusal f sector true count) [
  | some status ↦ (status, some buffer)
  | none ↦ (
    ok,
    some
        (copy_bytes (u32 (count * 512)) 0 f.mem (u32 (f.flash_base + u32 (sector * 512))) buffer 0),
  )
]

pub flash_write : Flash → ℕ → Option (ℕ → ℕ) → ℕ → Status × Flash
unfolding refusal copy_bytes
flash_write f sector none count = (invalid, f)
flash_write f sector (some buffer) count = elim (refusal f sector true count) [
  | some status ↦ (status, f)
  | none ↦ (
    ok,
    record f {
      mem =
          copy_bytes (u32 (count * 512)) 0 buffer 0 f.mem (u32 (f.flash_base + u32 (sector * 512)));
    },
  )
]

-- `storage[i] = 0xFF` for `n` bytes, from byte `i` on.
pub erase_bytes : ℕ → ℕ → Ptr → (Ptr → ℕ) → Ptr → ℕ
erase_bytes zero i storage mem = mem
erase_bytes (suc n) i storage mem = erase_bytes n (i + 1) storage (update mem (storage + i) 0xff)

-- `smart_flash_init`; the address and the size depend on the board, and are `FLASH_FS_BASE_ADDR` and
-- `FLASH_FS_SIZE`.
pub flash_init : (base : Ptr) (size : ℕ) → (Ptr → ℕ) → Option Flash
unfolding erase_bytes
flash_init base size mem =
    if base == 0
    then none
    else some (record {
      initialized = true;
      total_sectors = size / 512;
      flash_base = base;
      flash_size = size;
      mem = erase_bytes size 0 base mem;
    })

-- What a file system uses of a device: `dev->read` and `dev->write`, each for one sector.
pub record BlockDevice : Type 1 where
  pub Dev : Type 0
  pub read : Dev → ℕ → (ℕ → ℕ) → Status × (ℕ → ℕ)
  pub write : Dev → ℕ → (ℕ → ℕ) → Status × Dev

-- `smart_block_read` and `smart_block_write` of one sector.
module _ (B : BlockDevice) where
  unfoldable pub block_read : Option B.Dev → ℕ → (ℕ → ℕ) → Status × (ℕ → ℕ)
  block_read none sector buffer = (invalid, buffer)
  block_read (some dev) sector buffer = B.read dev sector buffer

  unfoldable pub block_write : Option B.Dev → ℕ → (ℕ → ℕ) → Status × Option B.Dev
  block_write none sector buffer = (invalid, none)
  block_write (some dev) sector buffer =
      let (status, d) = B.write dev sector buffer in (status, some d)

-- What a device promises of its sectors of 512 bytes.
pub record IsLawful (B : BlockDevice) : Type 0 where
  pub sectors : B.Dev → ℕ
  pub byte : B.Dev → ℕ → ℕ → ℕ
  pub read_ok : (d : B.Dev) (k : ℕ) (buffer : ℕ → ℕ) → k < sectors d → (B.read d k buffer).0 ≡ ok
  pub read_byte :
      (d : B.Dev) (k : ℕ) (buffer : ℕ → ℕ) (i : ℕ)
      → k < sectors d
      → (B.read d k buffer).1 i ≡ (if ltb i 512 then byte d k i else buffer i)
  pub write_ok : (d : B.Dev) (k : ℕ) (buffer : ℕ → ℕ) → k < sectors d → (B.write d k buffer).0 ≡ ok
  pub write_byte :
      (d : B.Dev) (k : ℕ) (buffer : ℕ → ℕ) (j i : ℕ)
      → k < sectors d
      → i < 512
      → byte (B.write d k buffer).1 j i ≡ (if j == k then buffer i else byte d j i)
  pub write_sectors :
      (d : B.Dev) (k : ℕ) (buffer : ℕ → ℕ) → sectors (B.write d k buffer).1 ≡ sectors d

-- The storage of the board as such a device.
abbrev pub some_or : Option (ℕ → ℕ) → (ℕ → ℕ) → ℕ → ℕ
some_or none d = d
some_or (some b) d = b

unfoldable pub flash_device : BlockDevice
unfolding flash_read flash_write
flash_device = record {
  Dev = Flash;
  read = λ f sector buffer.
      let (status, b) = flash_read f sector (some buffer) 1 in (status, some_or b buffer);
  write = λ f sector buffer. flash_write f sector (some buffer) 1;
}
