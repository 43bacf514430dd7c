-- ===== src/Fs/Listing/Tests.antt =====
-- The listing of a disk with one file, and the theorem at it.
use smart_os.Base.{◌≡◌, refl, ◌∷◌, [], arith}
use smart_os.Fs.{ok}
use smart_os.Fs.Disk.{ram, ram_law, disk_a, mounted_a}
use smart_os.Fs.Dir.Sectors.{Mounted}
use smart_os.Fs.Listing.{list_dir}
use smart_os.Fs.Listing.Live.{live, line_of, directory, list_dir_lem}
use smart_os.Shell.Console.{for_each, print}

mounted_a-Mounted : Mounted ram ram_law mounted_a disk_a
unfolding Mounted
mounted_a-Mounted = (refl, λ i h. omega (arith, h))

one_file : live 224 0 (directory ram ram_law mounted_a disk_a) ≡ 0 ∷ []
unfolding live
one_file = refl

list_dir_lem_example : list_dir ram mounted_a (λ x. 0) ≡ (
  ok,
  print "[FS] Root directory:\n"
      ∷ for_each
          (line_of (directory ram ram_law mounted_a disk_a))
          (live 224 0 (directory ram ram_law mounted_a disk_a)),
)
list_dir_lem_example = list_dir_lem ram ram_law mounted_a disk_a (λ x. 0) mounted_a-Mounted refl
