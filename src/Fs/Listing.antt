-- ===== src/Fs/Listing.antt =====
-- `smart_fs_list_dir`.
pub mod Live
mod Tests
use smart_os.Base.{
  ℕ, zero, suc, ◌+◌, ◌*◌, Bool, true, false, ◌||◌, Option, none, some, List, [], ◌∷◌, ◌++◌, u32,
  ◌==◌, if◌then◌else◌,
}
use smart_os.Block.{BlockDevice, block_read}
use smart_os.Fs.{Status, ok, error, Fs}
use smart_os.Fs.Fat.{is_ok}
use smart_os.Fs.Dir.{bytes, first_byte, get32, not_ready}
use smart_os.Shell.Console.{Output, print, hex, putc}

-- The characters of a part of the name that are not spaces.
pub print_part : List ℕ → List Output
print_part [] = []
print_part (c ∷ cs) = let rest = print_part cs in if c == 32 then rest else putc c ∷ rest

-- The line of an entry with the name, the extension and the size.
pub entry_text : List ℕ → List ℕ → ℕ → List Output
unfolding print_part
entry_text name ext size =
    let suffix = if first_byte ext == 32 then [] else putc b'.' ∷ print_part ext in
    print_part name ++ (suffix ++ print " (" ∷ hex size ∷ print " bytes)\n" ∷ [])

-- The line of the entry at offset `e`.
abbrev pub entry_line : (ℕ → ℕ) → ℕ → List Output
entry_line buffer e = entry_text (bytes 8 buffer e) (bytes 3 buffer (e + 8)) (get32 buffer (e + 28))

-- The loop over the entries of a sector, `n` of them from `j` on; the Boolean says whether the directory has ended.
pub list_slots : ℕ → ℕ → (ℕ → ℕ) → List Output × Bool
unfolding entry_text
list_slots zero j buffer = ([], false)
list_slots (suc n) j buffer =
    let (rest, ended) = list_slots n (j + 1) buffer in
    if buffer (j * 32) == 0x00
    then ([], true)
    else if buffer (j * 32) == 0xe5
    then (rest, ended)
    else (entry_line buffer (j * 32) ++ rest, ended)

module _ (B : BlockDevice) where
  -- The loop over the sectors. It stops at one that fails, and the function returns `SMART_FS_OK` all the same.
  pub list_sectors : ℕ → ℕ → Fs B → (ℕ → ℕ) → List Output
  unfolding list_slots
  list_sectors zero i s sector_buffer = []
  list_sectors (suc n) i s sector_buffer =
      let (status, buffer) =
        block_read B s.fs_device (u32 (s.root_dir_start_sector + i)) sector_buffer in
      let (lines, ended) = list_slots 16 0 buffer in
      let rest = list_sectors n (i + 1) s buffer in
      if is_ok status
      then (if ended then lines else lines ++ rest)
      else print "[FS] Failed to read root dir sector " ∷ hex i ∷ print "\n" ∷ []

  pub list_dir : Fs B → (ℕ → ℕ) → Status × List Output
  unfolding list_sectors
  list_dir s sector_buffer =
      if not_ready B s
      then (error, print "[FS] File system not initialized\n" ∷ [])
      else (ok, print "[FS] Root directory:\n" ∷ list_sectors 14 0 s sector_buffer)
