-- ===== src/Fs/Dir.antt =====
-- The root directory: 14 sectors of 16 entries of 32 bytes, its search, and the operations on its entries.
-- `sector_buffer` is what the array on the stack holds at first.
pub mod Search
pub mod Sectors
pub mod Entries
pub mod Reopen
pub mod Created
pub mod Full
mod Tests
use smart_os.Base.{
  ℕ, zero, suc, ◌+◌, ◌*◌, ◌/◌, ◌%◌, Bool, true, false, not, ◌||◌, ◌&&◌, Option, none, some, List,
  [], ◌∷◌, ◌++◌, u16, u32, ltb, ◌==◌, if◌then◌else◌, length, replicate,
}
use smart_os.Base.Chain.{update}
use smart_os.Block.{BlockDevice, block_read, block_write}
use smart_os.Fs.{Status, ok, error, not_found, invalid, full, Fs, File}
use smart_os.Fs.Fat.{is_ok}
use smart_os.Fs.Names.{filename_to_83, create_name, stored_name}

-- The `n` bytes of a buffer from an offset on, and a buffer with bytes put into it.
unfoldable pub bytes : ℕ → (ℕ → ℕ) → ℕ → List ℕ
bytes zero buffer i = []
bytes (suc n) buffer i = buffer i ∷ bytes n buffer (i + 1)

unfoldable pub put_bytes : List ℕ → ℕ → (ℕ → ℕ) → ℕ → ℕ
put_bytes [] i buffer = buffer
put_bytes (c ∷ cs) i buffer = update (put_bytes cs (i + 1) buffer) i c

-- `memcmp(a, b, n) == 0`
abbrev pub eq_bytes : List ℕ → List ℕ → Bool
eq_bytes [] [] = true
eq_bytes [] (c ∷ cs) = false
eq_bytes (b ∷ bs) [] = false
eq_bytes (b ∷ bs) (c ∷ cs) = b == c && eq_bytes bs cs

abbrev pub first_byte : List ℕ → ℕ
first_byte [] = 0
first_byte (c ∷ cs) = c

-- What a loop over the entries does at one: `continue`, `break`, return `SMART_FS_NOT_FOUND`, or act on it.
pub data Verdict : Type 0 where
  go_on leave quit here : Verdict

abbrev pub find_test : List ℕ → List ℕ → Verdict
find_test name83 name =
    if first_byte name == 0x00
    then leave
    else if first_byte name == 0xe5
    then go_on
    else if eq_bytes name name83
    then here
    else go_on

abbrev pub update_test : List ℕ → List ℕ → Verdict
update_test name83 name =
    if first_byte name == 0x00
    then quit
    else if first_byte name == 0xe5
    then go_on
    else if eq_bytes name name83
    then here
    else go_on

abbrev pub create_test : List ℕ → Verdict
create_test name = if first_byte name == 0x00 || first_byte name == 0xe5 then here else go_on

-- The loop over the entries of a sector, given the test of an entry's name: `n` of them from `j` on.
pub data Scan : Type 0 where
  at : ℕ → Scan
  over stop : Scan

abbrev pub follow : Verdict → ℕ → Scan → Scan
follow go_on j rest = rest
follow leave j rest = over
follow quit j rest = stop
follow here j rest = at j

pub slots : (List ℕ → Verdict) → ℕ → ℕ → (ℕ → ℕ) → Scan
unfolding bytes
slots test zero j buffer = over
slots test (suc n) j buffer =
    let rest = slots test n (j + 1) buffer in follow (test (bytes 11 buffer (j * 32))) j rest

-- The loop over the sectors: the sector, the entry in it and the buffer where it acts.
pub data Outcome : Type 0 where
  found : ℕ → ℕ → (ℕ → ℕ) → Outcome
  missing failed : Outcome

abbrev pub proceed : Scan → ℕ → (ℕ → ℕ) → Outcome → Outcome
proceed (at j) k buffer rest = found k j buffer
proceed over k buffer rest = rest
proceed stop k buffer rest = missing

-- A new entry: the name, `attr`, and zeros.
abbrev pub new_entry : List ℕ → List ℕ
new_entry name = name ++ 0x20 ∷ replicate 20 0

abbrev pub le16 : ℕ → List ℕ
le16 v = v % 256 ∷ (v / 256 % 256) ∷ []

abbrev pub le32 : ℕ → List ℕ
le32 v = v % 256 ∷ (v / 256 % 256) ∷ (v / 65536 % 256) ∷ (v / 16777216 % 256) ∷ []

abbrev pub get16 : (ℕ → ℕ) → ℕ → ℕ
get16 buffer i = buffer i + buffer (i + 1) * 256

abbrev pub get32 : (ℕ → ℕ) → ℕ → ℕ
get32 buffer i =
    buffer i + buffer (i + 1) * 256 + buffer (i + 2) * 65536 + buffer (i + 3) * 16777216

-- The handle of a file whose entry stands at `j` in a sector, and what opening it answers to a search.
abbrev pub found_file : List ℕ → ℕ → (ℕ → ℕ) → File
found_file filename j buffer =
    let first = get16 buffer (j * 32 + 26) in
    record {
      first_cluster = first;
      current_cluster = first;
      file_size = get32 buffer (j * 32 + 28);
      position = 0;
      is_dir = buffer (j * 32 + 11) / 16 % 2 == 1;
      filename = stored_name filename;
    }

abbrev pub opened : List ℕ → Outcome → Status × Option File
opened filename (found k j buffer) = (ok, some (found_file filename j buffer))
opened filename missing = (not_found, none)
opened filename failed = (not_found, none)

module _ (B : BlockDevice) where
  pub search : (List ℕ → Verdict) → ℕ → ℕ → Fs B → (ℕ → ℕ) → Outcome
  unfolding slots
  search test zero i s sector_buffer = missing
  search test (suc n) i s sector_buffer =
      let k = u32 (s.root_dir_start_sector + i) in
      let (status, buffer) = block_read B s.fs_device k sector_buffer in
      let rest = search test n (i + 1) s buffer in
      if is_ok status then proceed (slots test 16 0 buffer) k buffer rest else failed

  -- The entry's sector is written back with the bytes put at an offset in the entry.
  abbrev pub write_entry : Fs B → ℕ → (ℕ → ℕ) → Status × Fs B
  write_entry s k buffer =
      let (status, dev) = block_write B s.fs_device k buffer in
      (if is_ok status then ok else error, record s { fs_device = dev })

  -- What a loop returns: `write` where it acts, the status `miss` where it finds no entry.
  abbrev pub act : Fs B → Status → (ℕ → ℕ → (ℕ → ℕ) → Status × Fs B) → Outcome → Status × Fs B
  act s miss write (found k j buffer) = write k j buffer
  act s miss write missing = (miss, s)
  act s miss write failed = (error, s)

  -- `smart_fs_open`, with `find_file_in_root`, which it calls; the Boolean says whether `file` is not `NULL`.
  pub open_file : Fs B → Option (List ℕ) → Bool → (ℕ → ℕ) → Status × Option File
  unfolding search stored_name filename_to_83
  open_file s none file sector_buffer = (invalid, none)
  open_file s (some filename) false sector_buffer = (invalid, none)
  open_file s (some filename) true sector_buffer =
      opened filename (search (find_test (filename_to_83 filename)) 14 0 s sector_buffer)

  pub update_file_info : Fs B → List ℕ → ℕ → ℕ → (ℕ → ℕ) → Status × Fs B
  unfolding search put_bytes filename_to_83
  update_file_info s filename first_cluster file_size sector_buffer =
      act s not_found
        (λ k j buffer.
          write_entry s k (put_bytes (le16 first_cluster ++ le32 file_size) (j * 32 + 26) buffer))
        (search (update_test (filename_to_83 filename)) 14 0 s sector_buffer)

  pub close_file : Fs B → Option File → (ℕ → ℕ) → Status × Fs B
  unfolding update_file_info
  close_file s none sector_buffer = (invalid, s)
  close_file s (some file) sector_buffer =
      update_file_info s file.filename (u16 file.first_cluster) file.file_size sector_buffer

  abbrev pub no_device : Option B.Dev → Bool
  no_device none = true
  no_device (some d) = false

  abbrev pub not_ready : Fs B → Bool
  not_ready s = no_device s.fs_device || s.root_dir_start_sector == 0

  pub create_file : Fs B → Option (List ℕ) → (ℕ → ℕ) → Status × Fs B
  unfolding search put_bytes create_name
  create_file s none sector_buffer = (if not_ready s then error else invalid, s)
  create_file s (some filename) sector_buffer =
      if not_ready s
      then (error, s)
      else if length filename == 0 || ltb 12 (length filename)
      then (invalid, s)
      else act s full
          (λ k j buffer.
            write_entry s k (put_bytes (new_entry (create_name filename)) (j * 32) buffer))
          (search create_test 14 0 s sector_buffer)

  pub delete_file : Fs B → List ℕ → (ℕ → ℕ) → Status × Fs B
  unfolding search put_bytes create_name
  delete_file s filename sector_buffer =
      if not_ready s
      then (error, s)
      else act s not_found (λ k j buffer. write_entry s k (put_bytes (0xe5 ∷ []) (j * 32) buffer))
          (search (update_test (create_name filename)) 14 0 s sector_buffer)
