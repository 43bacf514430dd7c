-- ===== src/Fs/Dir/Tests.antt =====
-- The directory of a disk, and the theorems at it.
use smart_os.Base.{ℕ, ◌≡◌, refl, true, List, [], ◌∷◌, some, none, arith}
use smart_os.Fs.{ok, not_found, full, Fs, File}
use smart_os.Fs.Disk.{ram, ram_law, disk, mounted, disk_a, mounted_a}
use smart_os.Fs.Dir.Search.{name_at}
use smart_os.Fs.Dir.{first_byte, open_file, update_file_info, create_file, search, slots, bytes}
use smart_os.Fs.Dir.Sectors.{Mounted}
use smart_os.Fs.Dir.Reopen.{open_file-update_file_info}
use smart_os.Fs.Dir.Created.{open_file-create_file}
use smart_os.Fs.Dir.Full.{create_file_full}
use smart_os.Fs.Names.{filename_to_83, create_name}
use smart_os.Block.{block_read, block_write}

-- "a.c"
abbrev name : List ℕ
name = b'a' ∷ b'.' ∷ b'c' ∷ []

mounted-Mounted : Mounted ram ram_law mounted disk
unfolding Mounted
mounted-Mounted = (refl, λ i h. omega (arith, h))

mounted_a-Mounted : Mounted ram ram_law mounted_a disk_a
unfolding Mounted
mounted_a-Mounted = (refl, λ i h. omega (arith, h))

abbrev updated : Fs ram
unfolding update_file_info
updated = (update_file_info ram mounted_a name 7 100 (λ x. 0)).1

update_ok : update_file_info ram mounted_a name 7 100 (λ x. 0) ≡ (ok, updated)
unfolding update_file_info search slots bytes block_read block_write filename_to_83
update_ok = refl

open_file-update_file_info_example :
    (file : File) × (open_file ram updated (some name) true (λ x. 0) ≡ (ok, some file))
    × (file.first_cluster ≡ 7)
    × (file.file_size ≡ 100)
    × (file.position ≡ 0)
open_file-update_file_info_example =
    open_file-update_file_info ram ram_law mounted_a updated disk_a name 7 100 (λ x. 0) (λ x. 0)
      mounted_a-Mounted (omega arith) update_ok

abbrev created : Fs ram
unfolding create_file
created = (create_file ram mounted (some name) (λ x. 0)).1

create_ok : create_file ram mounted (some name) (λ x. 0) ≡ (ok, created)
unfolding create_file search slots bytes block_read block_write create_name
create_ok = refl

absent : open_file ram mounted (some name) true (λ x. 0) ≡ (not_found, none)
unfolding open_file search slots bytes block_read filename_to_83
absent = refl

letter : first_byte (filename_to_83 name) ≡ b'A'
unfolding filename_to_83
letter = refl

open_file-create_file_example :
    (file : File) × (open_file ram created (some name) true (λ x. 0) ≡ (ok, some file))
    × (file.first_cluster ≡ 0)
    × (file.file_size ≡ 0)
    × (file.position ≡ 0)
open_file-create_file_example =
    open_file-create_file ram ram_law mounted created disk name (λ x. 0) (λ x. 0) (λ x. 0)
      mounted-Mounted (omega (arith, letter)) (omega (arith, letter)) absent create_ok

-- A disk whose every byte is the letter A.
abbrev crowded : ℕ → ℕ → ℕ
crowded k i = b'A'

crowded_lem : (p i : ℕ) → first_byte (name_at (crowded p) i) ≡ b'A'
unfolding bytes
crowded_lem p i = refl

abbrev full_disk : Fs ram
full_disk = record mounted { fs_device = some crowded }

full_disk-Mounted : Mounted ram ram_law full_disk crowded
unfolding Mounted
full_disk-Mounted = (refl, λ i h. omega (arith, h))

create_file_full_example : create_file ram full_disk (some name) (λ x. 0) ≡ (full, full_disk)
create_file_full_example =
    create_file_full ram ram_law full_disk crowded name (λ x. 0) full_disk-Mounted (omega arith)
      (omega arith) (omega arith)
      (λ p i h l. (λ e. omega (arith, e, crowded_lem p i), λ e. omega (arith, e, crowded_lem p i)))
