-- ===== src/Fs/Writing/Tests.antt =====
-- Writing to a file of a disk in memory, and the theorems at it.
use smart_os.Base.{ℕ, ◌+◌, ◌-◌, ◌<◌, ◌≡◌, refl, true, false, [], some, ltb, if◌then◌else◌, arith}
use smart_os.Fs.{ok, File}
use smart_os.Fs.Disk.{ram, ram_law, disk, mounted}
use smart_os.Fs.Files.{cut_size, read_file}
use smart_os.Fs.Files.Content.{content}
use smart_os.Fs.Writing.{write_file}
use smart_os.Fs.Writing.Bounds.{Outcome, write_file_bounds}
use smart_os.Block.{block_read}
use smart_os.Fs.Fat.{read_fat_entry}
use smart_os.Fs.Writing.NewFile.{read_file-write_file_new}
use smart_os.Fs.Writing.ReadBack.{read_file-write_file}

-- Ten bytes, in cluster 2.
abbrev file : File
file = record {
  first_cluster = 2;
  current_cluster = 2;
  file_size = 10;
  position = 0;
  is_dir = false;
  filename = [];
}

write_file_bounds_example :
    Outcome ram 600 file (write_file ram mounted file (λ x. x) 600 true (λ x. 0))
write_file_bounds_example =
    write_file_bounds ram mounted file (λ x. x) 600 (λ x. 0) (omega arith) (omega arith)

read_file-write_file_example :
    (let w = write_file ram mounted file (λ x. x) 500 true (λ x. 0) in
      let after = record w.handle { position = 5 } in
      let n = cut_size after 100 in
      let r = read_file ram w.state after (λ x. 1) 100 true (λ x. 0) in
      (w.status ≡ ok)
      × (w.bytes_written ≡ some 500)
      × (w.handle.file_size ≡ file.file_size + 500)
      × (r.status ≡ ok)
      × (r.bytes_read ≡ some n)
      × ((x : ℕ)
          → x < n
          → r.buffer x ≡ (
              if ltb (5 + x) file.file_size
              then content ram ram_law mounted disk 2 (5 + x)
              else 5 + x - file.file_size)))
read_file-write_file_example =
    read_file-write_file ram ram_law mounted disk file (λ x. x) 500 (λ x. 0) 5 (λ x. 1) 100 (λ x. 0)
      (refl, omega arith, omega arith, omega arith, omega arith, omega arith) (omega arith)
      (omega arith) (omega arith)

free : (read_fat_entry ram mounted 2).0 ≡ 0
unfolding read_fat_entry block_read
free = refl

-- Empty, and without a cluster.
abbrev new_file : File
new_file = record file { first_cluster = 0; current_cluster = 0; file_size = 0 }

read_file-write_file_new_example :
    (let w = write_file ram mounted new_file (λ x. x) 500 true (λ x. 0) in
      let after = record w.handle { position = 7 } in
      let n = cut_size after 100 in
      let r = read_file ram w.state after (λ x. 1) 100 true (λ x. 0) in
      (w.status ≡ ok)
      × (w.bytes_written ≡ some 500)
      × (w.handle.first_cluster ≡ 2)
      × (w.handle.file_size ≡ 500)
      × (r.status ≡ ok)
      × (r.bytes_read ≡ some n)
      × ((x : ℕ) → x < n → r.buffer x ≡ 7 + x))
read_file-write_file_new_example =
    read_file-write_file_new ram ram_law mounted disk new_file (λ x. x) 500 (λ x. 0) 2 7 (λ x. 1)
      100 (λ x. 0) refl refl refl (omega arith) (omega arith) (omega arith) (omega arith)
      (λ x a b. (refl, omega (arith, b), omega (arith, b), omega (arith, b), omega (arith, a, b)))
      (λ x a b e. omega (arith, a, b)) free
      (refl, omega arith, omega arith, omega arith, omega arith, omega arith) (omega arith)
