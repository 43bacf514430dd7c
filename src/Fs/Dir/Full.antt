-- ===== src/Fs/Dir/Full.antt =====
-- Creating a file in a directory with no free entry.
use smart_os.Base.{
  ℕ, zero, suc, ◌+◌, ◌*◌, ◌≤◌, ◌<◌, ◌≡◌, ◌≢◌, ap, ap₂, ◌∙◌, false, ◌||◌, List, some, arith, ◌==◌,
  ltb, if◌then◌else◌, length,
}
use smart_os.Block.{BlockDevice, IsLawful}
use smart_os.Fs.{Status, error, invalid, full, Fs}
use smart_os.Fs.Names.{create_name}
use smart_os.Fs.Dir.{
  put_bytes, first_byte, Verdict, go_on, create_test, over, slots, follow, missing, search,
  new_entry, act, write_entry, create_file, not_ready, proceed,
}
use smart_os.Fs.Dir.Search.{name_at, slots_zero, slots-suc}
use smart_os.Fs.Dir.Sectors.{sector_of, Mounted, search_zero, search-suc}

slots_all :
    (C : List ℕ → Verdict) (n j : ℕ) (f : ℕ → ℕ)
    → ((i : ℕ) → i < j + n → C (name_at f i) ≡ go_on)
    → slots C n j f ≡ over
slots_all C zero j f h = slots_zero C j f
slots_all C (suc n) j f h =
    slots-suc C n j f
    ∙ ap₂ (λ v r. follow v j r) (h j (omega arith))
        (slots_all C n (j + 1) f (λ i l. h i (omega arith)))

module _ (B : BlockDevice) (L : IsLawful B) where
  open L use {byte}

  search_all :
      (C : List ℕ → Verdict) (n i : ℕ) (s : Fs B) (d : B.Dev) (buffer : ℕ → ℕ)
      → Mounted B L s d
      → i + n ≤ 14
      → ((p : ℕ) → p < i + n → slots C 16 0 (byte d (sector_of B s p)) ≡ over)
      → search B C n i s buffer ≡ missing
  search_all C zero i s d buffer M l h = search_zero B L C i s buffer
  search_all C (suc n) i s d buffer M l h =
      let (b, _, step) = search-suc B L C n i s d buffer M (omega arith) in
      step
      ∙ ap (λ c. proceed c (sector_of B s i) b (search B C n (i + 1) s b)) (h i (omega arith))
      ∙ search_all C n (i + 1) s d b M (omega arith) (λ p q. h p (omega arith))

  -- With every entry of the directory in use, a file with a name of one to twelve characters is not
  -- created: the answer is `SMART_FS_FULL`, and the state and the device stay.
  pub create_file_full :
      (s : Fs B) (d : B.Dev) (filename : List ℕ) (buffer : ℕ → ℕ)
      → Mounted B L s d
      → s.root_dir_start_sector ≢ 0
      → 1 ≤ length filename
      → length filename ≤ 12
      → ((p i : ℕ)
          → p < 14
          → i < 16
          → (first_byte (name_at (byte d (sector_of B s p)) i) ≢ 0x00)
            × (first_byte (name_at (byte d (sector_of B s p)) i) ≢ 0xe5))
      → create_file B s (some filename) buffer ≡ (full, s)
  unfolding create_file Mounted
  create_file_full s d filename buffer M root short long used =
      ap
        (λ b.
          if b
          then (error, s)
          else if length filename == 0 || ltb 12 (length filename)
          then (invalid, s)
          else answer)
        ready
      ∙ ap (λ b. if b then (invalid, s) else answer) named
      ∙ ap (act B s full write) gone
    where
      write : ℕ → ℕ → (ℕ → ℕ) → Status × Fs B
      write k j b = write_entry B s k (put_bytes (new_entry (create_name filename)) (j * 32) b)

      answer : Status × Fs B
      answer = act B s full write (search B create_test 14 0 s buffer)

      ready : not_ready B s ≡ false
      ready = rw M.0 (ground arith)

      named : (length filename == 0 || ltb 12 (length filename)) ≡ false
      named = ground arith

      in_use : (n : List ℕ) → (first_byte n ≢ 0x00) × (first_byte n ≢ 0xe5) → create_test n ≡ go_on
      in_use n h = ground arith

      gone : search B create_test 14 0 s buffer ≡ missing
      gone = search_all create_test 14 0 s d buffer M (omega arith) (λ p q.
          slots_all create_test 16 0 (byte d (sector_of B s p))
            (λ i l. in_use (name_at (byte d (sector_of B s p)) i) (used p i q l)))
