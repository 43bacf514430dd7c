-- ===== src/Fs/Files/Tests.antt =====
-- Reading a file of a disk, and the theorems at it.
use smart_os.Base.{◌≡◌, true, false, ◌⊎◌, [], none, arith}
use smart_os.Fs.{error, File}
use smart_os.Fs.Disk.{ram, mounted}
use smart_os.Fs.Files.{Reader, read_file}
use smart_os.Fs.Files.Reading.{Brought, read_file_bounds}

-- Ten bytes, in cluster 2, of which three are read already.
abbrev file : File
file = record {
  first_cluster = 2;
  current_cluster = 2;
  file_size = 10;
  position = 3;
  is_dir = false;
  filename = [];
}

abbrev start : Reader ram
start = record {
  fs = mounted;
  file = file;
  dst = λ x. 1;
  total_read = 0;
  cluster = 2;
  sector_offset = 0;
  sector_buffer = λ x. 0;
}

read_file_bounds_example :
    (let r = read_file ram mounted file (λ x. 1) 100 true (λ x. 0) in
      ((r.status ≡ error) × (r.bytes_read ≡ none))
      ⊎ Brought ram mounted file (λ x. 1) 100 (λ x. 0) r)
read_file_bounds_example = read_file_bounds ram mounted file (λ x. 1) 100 (λ x. 0) (omega arith)
