-- ===== src/Fs.antt =====
-- core/smart_fs.c and its header: a FAT12 file system on a block device. A sector's buffer is a function
-- from an offset to a byte.
pub mod Names
pub mod Fat
pub mod Dir
pub mod Files
pub mod Writing
pub mod Listing
pub mod Format
pub mod Disk
mod Tests
use smart_os.Base.{ℕ, Bool, Option, none, some, List}
use smart_os.Block.{BlockDevice}

-- `smart_fs_status_t`
pub data Status : Type 0 where
  ok error not_found invalid full : Status

-- The static variables, for the device that `B` describes.
pub record Fs (B : BlockDevice) : Type 0 where
  pub fs_device : Option B.Dev
  pub fat_start_sector : ℕ
  pub root_dir_start_sector : ℕ
  pub data_start_sector : ℕ
  pub sectors_per_cluster : ℕ
  pub fat_cache : ℕ → ℕ

-- `smart_file_t`
pub record File : Type 0 where
  pub first_cluster : ℕ
  pub current_cluster : ℕ
  pub file_size : ℕ
  pub position : ℕ
  pub is_dir : Bool
  pub filename : List ℕ
