-- ===== src/Fs/Format/Tests.antt =====
-- Formatting a disk, and the theorem at it.
use smart_os.Base.{ℕ, ◌+◌, ◌*◌, ◌<◌, ◌≡◌, some, ltb, ◌==◌, if◌then◌else◌, arith}
use smart_os.Fs.{ok}
use smart_os.Fs.Disk.{ram, ram_law, disk, mounted}
use smart_os.Fs.Format.{sectors_per_fat, boot_sector, fat_head, format, init}
use smart_os.Fs.Format.Layout.{init-format}

init-format_example :
    (d' : ℕ → ℕ → ℕ) × (format ram (some disk) 64 ≡ (ok, some d'))
    × ((k x : ℕ)
        → x < 512
        → d' k x ≡ (
            if k == 0
            then boot_sector 64 x
            else if k == 1
            then fat_head x
            else if ltb k (15 + 2 * sectors_per_fat 64)
            then 0
            else 0))
    × (init ram mounted (some d') (λ x. 0) ≡ (
      ok,
      record mounted {
        fs_device = some d';
        sectors_per_cluster = 1;
        fat_start_sector = 1;
        root_dir_start_sector = 1 + 2 * sectors_per_fat 64;
        data_start_sector = 15 + 2 * sectors_per_fat 64;
      },
    ))
init-format_example =
    init-format ram ram_law mounted disk 64 (λ x. 0) (omega arith, omega arith, omega arith)
