-- ===== src/Shell/Files.antt =====
-- The commands on files. Each function of the file system that uses a buffer on its stack is given `stack`, what the
-- memory there holds.
pub mod Cat
use smart_os.Base.{
  ℕ, zero, suc, ◌+◌, ◌-◌, Bool, true, false, not, ◌&&◌, Option, none, some, List, [], ◌∷◌, ◌++◌,
  ltb, ◌==◌, if◌then◌else◌, length, u16, get_or, ◌||◌,
}
use smart_os.Base.Chain.{update}
use smart_os.Block.{BlockDevice}
use smart_os.Fs.{Status, ok, error, not_found, invalid, full, Fs, File}
use smart_os.Fs.Dir.{open_file, close_file, create_file, delete_file, update_file_info, first_byte}
use smart_os.Fs.Listing.{list_dir}
use smart_os.Fs.Files.{read_file}
use smart_os.Fs.Files as Files
use smart_os.Fs.Writing.{write_file}
use smart_os.Fs.Format.{format, init}
use smart_os.Shell.{c_string}
use smart_os.Shell.Console.{Output, print, print_bytes, hex, Exit, success, failure}

abbrev pub is_ok : Status → Bool
is_ok ok = true
is_ok error = false
is_ok not_found = false
is_ok invalid = false
is_ok full = false

abbrev pub is_full : Status → Bool
is_full full = true
is_full ok = false
is_full error = false
is_full not_found = false
is_full invalid = false

-- The number of a status.
abbrev pub status_code : Status → ℕ
status_code ok = 0
status_code error = 1
status_code not_found = 2
status_code invalid = 3
status_code full = 4

-- The arguments before the last two, and these.
pub last_two : List (List ℕ) → Option (List (List ℕ) × List ℕ × List ℕ)
last_two [] = none
last_two (a ∷ []) = none
last_two (a ∷ b ∷ []) = some ([], a, b)
last_two (a ∷ b ∷ c ∷ more) = elim (last_two (b ∷ c ∷ more)) [
  | none ↦ none
  | some (before, p, q) ↦ some (a ∷ before, p, q)
]

abbrev pub behind_first : List (List ℕ) → List (List ℕ)
behind_first [] = []
behind_first (a ∷ more) = more

abbrev format_head : List Output
format_head =
    print "\nWARNING: This will erase all files!\n"
    ∷ print "Format file system? (y/n): "
    ∷ print "y\n"
    ∷ []

module _ (B : BlockDevice) where
  -- The loop of `cmd_cat`: what it prints, and the state and the handle behind it. A round brings at most 127 bytes,
  -- and prints them up to the first that is 0.
  pub cat_loop : ℕ → Fs B → File → (ℕ → ℕ) → (ℕ → ℕ) → List Output × Fs B × File
  cat_loop zero s file buffer stack = ([], s, file)
  cat_loop (suc fuel) s file buffer stack =
      let r = read_file B s file buffer 127 true stack in
      let brought : ℕ = elim r.bytes_read [ none ↦ 0 | some n ↦ n ] in
      let ended = update r.buffer brought 0 in
      let (rest, t, g) = cat_loop fuel r.state r.handle ended stack in
      if brought == 0
      then ([], r.state, r.handle)
      else (print_bytes (c_string 128 0 ended) ∷ rest, t, g)

  abbrev pub usage_cat : Output
  usage_cat = print "Usage: cat <filename>\n"

  -- Each round but the last brings at least one byte of the file.
  pub cmd_cat : Fs B → List (List ℕ) → (ℕ → ℕ) → (ℕ → ℕ) → List Output × Exit × Fs B
  unfolding cat_loop
  cmd_cat s (command ∷ filename ∷ more) buffer stack =
      elim (open_file B s (some filename) true stack).1 [
        | none ↦ (print "Error: File not found\n" ∷ [], failure, s)
        | some file ↦
            let (printed, t, file) = cat_loop (suc file.file_size) s file buffer stack in
            let (_, t) = close_file B t (some file) stack in
            (print "\n" ∷ printed ++ print "\n\n" ∷ [], success, t)
      ]
  cmd_cat s (command ∷ []) buffer stack = (usage_cat ∷ [], failure, s)
  cmd_cat s [] buffer stack = (usage_cat ∷ [], failure, s)

  pub cmd_ls : Fs B → (ℕ → ℕ) → List Output × Exit
  cmd_ls s stack =
      let (status, lines) = list_dir B s stack in
      elim status [
        | ok ↦ (print "\n" ∷ lines ++ print "\n" ∷ [], success)
        | other ↦ (print "\n" ∷ lines ++ print "Error: Failed to list directory\n" ∷ [], failure)
      ]

  pub cmd_rm : Fs B → List (List ℕ) → (ℕ → ℕ) → List Output × Exit × Fs B
  cmd_rm s (command ∷ filename ∷ more) stack =
      let (status, t) = delete_file B s filename stack in
      elim status [
        | ok ↦ (print "File deleted successfully\n" ∷ [], success, t)
        | not_found ↦ (print "Error: File not found\n" ∷ [], failure, t)
        | other ↦ (print "Error: Failed to delete file\n" ∷ [], failure, t)
      ]
  cmd_rm s (command ∷ []) stack = (print "Usage: rm <filename>\n" ∷ [], failure, s)
  cmd_rm s [] stack = (print "Usage: rm <filename>\n" ∷ [], failure, s)

  -- The loop of `cmd_echo` over the words: the status of the first word that was not written in
  -- full; what the writing of a space returns is not looked at.
  pub write_words : List (List ℕ) → Fs B → File → (ℕ → ℕ) → Status × Fs B × File
  write_words [] s file stack = (ok, s, file)
  write_words (w ∷ []) s file stack =
      let r = write_file B s file (λ x. get_or w x 0) (length w) true stack in
      (r.status, r.state, r.handle)
  write_words (w ∷ v ∷ ws) s file stack =
      let r = write_file B s file (λ x. get_or w x 0) (length w) true stack in
      let space = write_file B r.state r.handle (λ x. 32) 1 true stack in
      let rest = write_words (v ∷ ws) space.state space.handle stack in
      if is_ok r.status then rest else (r.status, r.state, r.handle)

  -- What follows the opening of the file.
  pub echo_into : Fs B → List ℕ → List (List ℕ) → File → (ℕ → ℕ) → List Output × Exit × Fs B
  unfolding write_words
  echo_into s filename words file stack =
      let (status, t, file) = write_words words s file stack in
      let (_, left) = close_file B t (some file) stack in
      let (_, updated) =
        update_file_info B t filename (u16 file.first_cluster) file.file_size stack in
      let (_, closed) = close_file B updated (some file) stack in
      if is_ok status then (print "File created successfully\n" ∷ [], success, closed) else (
        print "Error: Write failed (" ∷ hex (status_code status) ∷ print ")\n" ∷ [],
        failure,
        left,
      )

  abbrev usage_echo : List Output
  usage_echo =
      print "Usage: echo <text> > <filename>\n" ∷ print "Example: echo Hello > test.txt\n" ∷ []

  pub cmd_echo : Fs B → List (List ℕ) → (ℕ → ℕ) → List Output × Exit × Fs B
  unfolding last_two echo_into
  cmd_echo s argv stack = elim (last_two argv) [
    | none ↦ (usage_echo, failure, s)
    | some (before, redirect, filename) ↦
        let (status, t) = create_file B s (some filename) stack in
        let opened : Option File = (open_file B t (some filename) true stack).1 in
        let written : List Output × Exit × Fs B = elim opened [
          | none ↦ (print "Error: Failed to open file\n" ∷ [], failure, t)
          | some file ↦ echo_into t filename (behind_first before) file stack
        ] in
        if ltb (length argv) 4 || not (first_byte redirect == b'>')
        then (usage_echo, failure, s)
        else if is_ok status || is_full status
        then written
        else (print "Error: Failed to create file\n" ∷ [], failure, t)
  ]

  -- The formatted device is the one that is mounted, if one is.
  abbrev remount : Fs B → Option B.Dev → Fs B
  remount s dev = record s { fs_device = elim s.fs_device [ none ↦ none | some d ↦ dev ] }

  pub cmd_format : Fs B → Option B.Dev → ℕ → (ℕ → ℕ) → List Output × Exit × Fs B
  cmd_format s none total_sectors stack =
      (format_head ++ print "Error: Flash device not available\n\n" ∷ [], failure, s)
  cmd_format s (some dev) total_sectors stack =
      let head = format_head ++ print "Formatting...\n" ∷ [] in
      let (status, dev) = format B (some dev) total_sectors in
      let (mounted, t) = init B (remount s dev) dev stack in
      let again =
        head ++ print "Format successful\n" ∷ print "Reinitializing file system...\n" ∷ [] in
      if is_ok status
      then (if is_ok mounted
          then (again ++ print "File system ready\n\n" ∷ [], success, t)
          else (again ++ print "Error: Failed to initialize after format\n\n" ∷ [], failure, t))
      else (head ++ print "Error: Format failed\n\n" ∷ [], failure, remount s dev)
