-- ===== src/Fs/Tests.antt =====
-- The theorems at a disk in memory.
use smart_os.Base.{ℕ, ◌<◌, ◌≡◌, ◌≢◌, refl, List, [], ◌∷◌, ◌++◌, some, arith}
use smart_os.Block.{block_read}
use smart_os.Fs.{ok, Fs}
use smart_os.Fs.Disk.{ram, ram_law, disk, mounted}
use smart_os.Fs.Names.{filename_to_83, stored_name}
use smart_os.Fs.Names.Agree.{stored_name-ne}
use smart_os.Fs.Fat.{read_fat_entry, write_fat_entry, allocate_cluster}
use smart_os.Fs.Fat.Allocation.{Allocated, allocate_cluster_lem}
use smart_os.Fs.Fat.Seam.{
  Reachable, Apart, read_fat_entry-write_fat_entry, write_fat_entry_overwrites,
  write_fat_entry_loses,
}

-- "longname.txt"
abbrev base_name : List ℕ
base_name = b'l' ∷ b'o' ∷ b'n' ∷ b'g' ∷ b'n' ∷ b'a' ∷ b'm' ∷ b'e' ∷ []

stored_name-ne_example :
    filename_to_83 (stored_name (base_name ++ b'.' ∷ b't' ∷ b'x' ∷ b't' ∷ []))
    ≢ filename_to_83 (base_name ++ b'.' ∷ b't' ∷ b'x' ∷ b't' ∷ [])
stored_name-ne_example = stored_name-ne base_name b't' b'x' b't' refl refl (omega arith)

read_fat_entry-write_fat_entry_example :
    (s' : Fs ram) × (write_fat_entry ram mounted 5 0xabc ≡ (ok, s'))
    × ((read_fat_entry ram s' 5).0 ≡ 0xabc)
    × ((c' : ℕ)
        → Reachable ram ram_law mounted disk c'
        → Apart ram ram_law mounted 5 c'
        → (read_fat_entry ram s' c').0 ≡ (read_fat_entry ram mounted c').0)
read_fat_entry-write_fat_entry_example =
    read_fat_entry-write_fat_entry ram ram_law mounted disk 5 0xabc
      (refl, omega arith, omega arith, omega arith, omega arith)

write_fat_entry_overwrites_example :
    (s' : Fs ram) × (d' : ℕ → ℕ → ℕ) × (write_fat_entry ram mounted 5 0xabc ≡ (ok, s'))
    × (s'.fs_device ≡ some d')
    × ((i : ℕ) → i < 512 → d' 2 i ≡ d' 1 i)
write_fat_entry_overwrites_example =
    write_fat_entry_overwrites ram ram_law mounted disk 5 0xabc refl (omega arith) (omega arith)

write_fat_entry_loses_example :
    (sv sw : Fs ram) × (dv dw : ℕ → ℕ → ℕ) × (write_fat_entry ram mounted 341 0xfff ≡ (ok, sv))
    × (write_fat_entry ram mounted 341 0x00f ≡ (ok, sw))
    × (sv.fs_device ≡ some dv)
    × (sw.fs_device ≡ some dw)
    × ((j i : ℕ) → i < 512 → dv j i ≡ dw j i)
write_fat_entry_loses_example =
    write_fat_entry_loses ram ram_law mounted disk 341 0xfff 0x00f refl (omega arith) (omega arith)
      refl refl

free : (read_fat_entry ram mounted 2).0 ≡ 0
unfolding read_fat_entry block_read
free = refl

allocate_cluster_lem_example :
    (s' : Fs ram) × (allocate_cluster ram mounted ≡ (2, s'))
    × Allocated ram ram_law mounted disk 2 s'
allocate_cluster_lem_example =
    allocate_cluster_lem ram ram_law mounted disk 2 (omega arith) (omega arith)
      (λ x a b. (refl, omega (arith, b), omega (arith, b), omega (arith, b), omega (arith, a, b)))
      (λ x a b e. omega (arith, a, b)) free
