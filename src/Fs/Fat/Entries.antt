-- ===== src/Fs/Fat/Entries.antt =====
-- Packing twelve bits into two bytes, and reading and writing entries on a device that keeps its promises.
use smart_os.Base.{
  ℕ, ◌+◌, ◌/◌, ◌%◌, ◌<◌, ◌≡◌, ◌≢◌, refl, ap, ◌∙◌, Bool, true, false, ◌||◌, some, List, [], ◌∷◌, u32,
  ◌==◌, ltb, if◌then◌else◌, arith, Bool-cases, inl, inr,
}
use smart_os.Block.{BlockDevice, IsLawful, block_read, block_write}
use smart_os.Fs.{ok, Fs}
use smart_os.Fs.Fat.{
  fat_offset, is_ok, unpack, pack, fat_sector, read_fat_entry, get_next_cluster, write_fat_entry,
  write_copies,
}

abbrev pub odd : ℕ → Bool
odd c = c % 2 == 1

abbrev pub entry_offset : ℕ → ℕ
entry_offset c = fat_offset c % 512

pub unpack-pack :
    (b : Bool) (cache : ℕ → ℕ) (e value : ℕ) → unpack b (pack b cache e value) e ≡ value % 4096
unpack-pack true cache e value = ground arith
unpack-pack false cache e value = ground arith

pub unpack-pack_ne :
    (c c' : ℕ) (cache : ℕ → ℕ) (value : ℕ)
    → c ≢ c'
    → fat_offset c / 512 ≡ fat_offset c' / 512
    → unpack (odd c') (pack (odd c) cache (entry_offset c) value) (entry_offset c')
      ≡ unpack (odd c') cache (entry_offset c')
unpack-pack_ne c c' cache value n same = ground arith

pub unpack_same :
    (b : Bool) (f g : ℕ → ℕ) (e : ℕ)
    → f e ≡ g e
    → f (e + 1) ≡ g (e + 1)
    → unpack b f e ≡ unpack b g e
unpack_same true f g e p q = ground arith
unpack_same false f g e p q = ground arith

pack_same :
    (b : Bool) (f g : ℕ → ℕ) (e value i : ℕ)
    → ((m : ℕ) → f m ≡ g m)
    → pack b f e value i ≡ pack b g e value i
pack_same true f g e value i h = rw (h e, h i) refl
pack_same false f g e value i h = rw (h (e + 1), h i) refl

-- A look at the table changes the table's buffer alone.
pub get_next_cluster_keeps :
    (B : BlockDevice) (s : Fs B) (c : ℕ)
    → let t = (get_next_cluster B s c).1 in
      (t.fs_device ≡ s.fs_device)
      × (t.data_start_sector ≡ s.data_start_sector)
      × (t.sectors_per_cluster ≡ s.sectors_per_cluster)
unfolding get_next_cluster read_fat_entry
get_next_cluster_keeps B s c =
    elim (Bool-cases (is_ok (block_read B s.fs_device (fat_sector B s c) s.fat_cache).0)) [
      | inl good ↦ rw (get_next_cluster, read_fat_entry, good) (refl, refl, refl)
      | inr bad ↦ rw (get_next_cluster, read_fat_entry, bad) (refl, refl, refl)
    ]

write_copies_keeps :
    (B : BlockDevice) (s : Fs B) (ks : List ℕ)
    → let t = (write_copies B s ks).1 in
      (t.data_start_sector ≡ s.data_start_sector) × (t.sectors_per_cluster ≡ s.sectors_per_cluster)
unfolding write_copies
write_copies_keeps B s [] = (refl, refl)
write_copies_keeps B s (k ∷ ks) =
    let (status, dev) = block_write B s.fs_device k s.fat_cache in
    let rest = write_copies_keeps B (record s { fs_device = dev }) ks in
    elim (Bool-cases (is_ok (block_write B s.fs_device k s.fat_cache).0)) [
      | inl good ↦ rw (write_copies, good) rest
      | inr bad ↦ rw (write_copies, bad) (refl, refl)
    ]

-- Writing an entry leaves the layout of the disk.
pub write_fat_entry_keeps :
    (B : BlockDevice) (s : Fs B) (c value : ℕ)
    → let t = (write_fat_entry B s c value).1 in
      (t.data_start_sector ≡ s.data_start_sector) × (t.sectors_per_cluster ≡ s.sectors_per_cluster)
unfolding write_fat_entry
write_fat_entry_keeps B s c value =
    let k : ℕ = fat_sector B s c in
    let cache : ℕ → ℕ = (block_read B s.fs_device k s.fat_cache).1 in
    elim (Bool-cases (is_ok (block_read B s.fs_device k s.fat_cache).0)) [
      | inl good ↦
          rw (write_fat_entry, good)
            (write_copies_keeps B
              (record s { fat_cache = pack (c % 2 == 1) cache (fat_offset c % 512) value })
              (k ∷ u32 (k + 1) ∷ []))
      | inr bad ↦ rw (write_fat_entry, bad) (refl, refl)
    ]

module _ (B : BlockDevice) (L : IsLawful B) where
  open L use {sectors, byte, read_ok, read_byte, write_ok, write_byte, write_sectors}

  -- The entry of a cluster in a sector of the device.
  abbrev pub cell : B.Dev → ℕ → ℕ → ℕ
  cell d k c = unpack (odd c) (byte d k) (entry_offset c)

  -- The sector of the table that the code works on: as read, and with the byte behind the buffer.
  abbrev pub loaded : Fs B → B.Dev → ℕ → ℕ → ℕ
  loaded s d k i = if ltb i 512 then byte d k i else s.fat_cache i

  pub block_read_lem :
      (s : Fs B) (d : B.Dev) (k : ℕ)
      → s.fs_device ≡ some d
      → k < sectors d
      → (is_ok (block_read B s.fs_device k s.fat_cache).0 ≡ true)
        × ((i : ℕ) → (block_read B s.fs_device k s.fat_cache).1 i ≡ loaded s d k i)
  unfolding block_read
  block_read_lem s d k e h =
      rw e (ap is_ok (read_ok d k s.fat_cache h), λ i. read_byte d k s.fat_cache i h)

  pub read_fat_entry_lem :
      (s : Fs B) (d : B.Dev) (c : ℕ)
      → s.fs_device ≡ some d
      → fat_sector B s c < sectors d
      → entry_offset c ≢ 511
      → (read_fat_entry B s c).0 ≡ cell d (fat_sector B s c) c
  unfolding read_fat_entry
  read_fat_entry_lem s d c e h n =
      let (ready, at) = block_read_lem s d (fat_sector B s c) e h in
      rw (read_fat_entry, ready)
        (unpack_same (odd c) (block_read B s.fs_device (fat_sector B s c) s.fat_cache).1
          (byte d (fat_sector B s c)) (entry_offset c) (at (entry_offset c) ∙ ground arith)
          (at (entry_offset c + 1) ∙ ground arith))

  pub write_copies_lem :
      (s : Fs B) (d : B.Dev) (k l : ℕ)
      → s.fs_device ≡ some d
      → k < sectors d
      → l < sectors d
      → (d' : B.Dev) × (write_copies B s (k ∷ l ∷ []) ≡ (ok, record s { fs_device = some d' }))
        × (sectors d' ≡ sectors d)
        × ((j i : ℕ)
            → i < 512
            → byte d' j i ≡ (if j == k || j == l then s.fat_cache i else byte d j i))
  unfolding write_copies block_write
  write_copies_lem s d k l e hk hl = (
    (B.write (B.write d k s.fat_cache).1 l s.fat_cache).1,
    rw
        (
          write_copies,
          e,
          block_write,
          write_ok d k s.fat_cache hk,
          write_ok (B.write d k s.fat_cache).1 l s.fat_cache
              (rw (write_sectors d k s.fat_cache) hl),
        )
        refl,
    write_sectors (B.write d k s.fat_cache).1 l s.fat_cache ∙ write_sectors d k s.fat_cache,
    λ j i h.
        write_byte (B.write d k s.fat_cache).1 l s.fat_cache j i
          (rw (write_sectors d k s.fat_cache) hl) h
        ∙ rw (write_byte d k s.fat_cache j i hk h) (ground arith),
  )

  -- What the code leaves: the sector and the one behind it hold the buffer with the entry changed.
  pub write_fat_entry_lem :
      (s : Fs B) (d : B.Dev) (c value : ℕ)
      → s.fs_device ≡ some d
      → fat_sector B s c < sectors d
      → u32 (fat_sector B s c + 1) < sectors d
      → (s' : Fs B) × (d' : B.Dev) × (write_fat_entry B s c value ≡ (ok, s'))
        × (s'.fs_device ≡ some d')
        × (s'.fat_start_sector ≡ s.fat_start_sector)
        × (sectors d' ≡ sectors d)
        × ((j i : ℕ)
            → i < 512
            → byte d' j i ≡ (
                if j == fat_sector B s c || j == u32 (fat_sector B s c + 1)
                then pack (odd c) (loaded s d (fat_sector B s c)) (entry_offset c) value i
                else byte d j i))
  unfolding write_fat_entry
  write_fat_entry_lem s d c value e hk hl =
      let k : ℕ = fat_sector B s c in
      let (ready, read) = block_read_lem s d k e hk in
      let cache : ℕ → ℕ = (block_read B s.fs_device k s.fat_cache).1 in
      let new : Fs B = record s { fat_cache = pack (odd c) cache (entry_offset c) value } in
      let (d', w, size, at) = write_copies_lem new d k (u32 (k + 1)) e hk hl in
      (
        record new { fs_device = some d' },
        d',
        rw (write_fat_entry, ready) w,
        refl,
        refl,
        size,
        λ j i h.
            at j i h
            ∙ ap (λ b. if j == k || j == u32 (k + 1) then b else byte d j i)
                (pack_same (odd c) cache (loaded s d k) (entry_offset c) value i read),
      )
