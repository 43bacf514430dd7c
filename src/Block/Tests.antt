-- ===== src/Block/Tests.antt =====
-- Two sectors of storage, and the theorems at them.
use smart_os.Base.{ℕ, ◌+◌, ◌<◌, ◌≡◌, refl, true, some, arith}
use smart_os.Block.{ok, Flash, flash_write}
use smart_os.Block.Sectors.{flash_write_wraps}

abbrev two_sectors : Flash
two_sectors = record {
  initialized = true;
  total_sectors = 2;
  flash_base = 0x10000;
  flash_size = 1024;
  mem = λ p. 0;
}

flash_write_wraps_example :
    (f' : Flash) × (flash_write two_sectors 0xffff_ffff (some (λ i. 7)) 1 ≡ (ok, f'))
    × ((i : ℕ) → i < 512 → f'.mem (0xfe00 + i) ≡ 7)
flash_write_wraps_example = flash_write_wraps two_sectors (λ i. 7) refl (omega arith)
