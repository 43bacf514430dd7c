-- ===== src/Fs/Fat/Seam.antt =====
-- What reading an entry brings after one was written, and what is lost where two sectors of the table meet.
use smart_os.Base.{
  ℕ, ◌+◌, ◌/◌, ◌%◌, ◌^◌, ◌<◌, ◌≡◌, ◌≢◌, refl, sym, ap, ◌∙◌, Bool, true, false, ◌||◌, some, u32,
  ◌==◌, if◌then◌else◌, arith, Bool-cases, inl, inr, lt→ltb, ==_ne, ==_iff, ==_refl,
}
use smart_os.Block.{BlockDevice, IsLawful}
use smart_os.Fs.{ok, Fs}
use smart_os.Fs.Fat.{fat_offset, unpack, pack, fat_sector, read_fat_entry, write_fat_entry}
use smart_os.Fs.Fat.Entries.{
  odd, entry_offset, unpack-pack, unpack-pack_ne, unpack_same, loaded, read_fat_entry_lem,
  write_fat_entry_lem,
}

-- The bytes of a buffer's last place depend on the low bits alone.
pack_first :
    (b : Bool) (cache : ℕ → ℕ) (e v w i : ℕ)
    → e ≡ 511
    → i < 512
    → v % (if b then 16 else 256) ≡ w % (if b then 16 else 256)
    → pack b cache e v i ≡ pack b cache e w i
pack_first true cache e v w i h l same = ground arith
pack_first false cache e v w i h l same = ground arith

chosen : (k l x y : ℕ) → (if l == k || l == l then x else y) ≡ x
chosen k l x y = ground arith

module _ (B : BlockDevice) (L : IsLawful B) where
  open L use {sectors, byte}

  -- The sectors that writing an entry touches lie on the device, and the entry lies in one of them.
  abbrev pub Reachable : Fs B → B.Dev → ℕ → Type 0
  Reachable s d c =
      (s.fs_device ≡ some d)
      × (c < 2 ^ 16)
      × (fat_sector B s c < sectors d)
      × (u32 (fat_sector B s c + 1) < sectors d)
      × (entry_offset c ≢ 511)

  -- The entry is somewhere else than the one written, and not in the sector behind it.
  abbrev pub Apart : Fs B → ℕ → ℕ → Type 0
  Apart s c c' = (c' ≢ c) × (fat_sector B s c' ≢ u32 (fat_sector B s c + 1))

  same_sector :
      (s : Fs B) (c c' : ℕ)
      → c < 2 ^ 16
      → c' < 2 ^ 16
      → fat_sector B s c' ≡ fat_sector B s c
      → fat_offset c / 512 ≡ fat_offset c' / 512
  same_sector s c c' h h' e = omega (arith, h, h', e)

  sector_ap :
      (s s' : Fs B) (c : ℕ)
      → s'.fat_start_sector ≡ s.fat_start_sector
      → fat_sector B s' c ≡ fat_sector B s c
  sector_ap s s' c e = ap (λ f. u32 (f + fat_offset c / 512)) e

  -- A read of an entry from the device of another state with the table in the same place.
  read_there :
      (s s' : Fs B) (d' : B.Dev) (c : ℕ)
      → s'.fs_device ≡ some d'
      → s'.fat_start_sector ≡ s.fat_start_sector
      → fat_sector B s c < sectors d'
      → entry_offset c ≢ 511
      → (f : ℕ → ℕ) → ((i : ℕ) → i < 512 → byte d' (fat_sector B s c) i ≡ f i)
      → (read_fat_entry B s' c).0 ≡ unpack (odd c) f (entry_offset c)
  read_there s s' d' c e start h n f at =
      read_fat_entry_lem B L s' d' c e (rw (sector_ap s s' c start) h) n
      ∙ rw (sector_ap s s' c start) (
          unpack_same (odd c) (byte d' (fat_sector B s c)) f (entry_offset c)
            (at (entry_offset c) (omega arith)) (at (entry_offset c + 1) (omega (arith, n))))

  others :
      (s s' : Fs B) (d d' : B.Dev) (c value c' : ℕ)
      → Reachable s d c
      → Reachable s d c'
      → Apart s c c'
      → s'.fs_device ≡ some d'
      → s'.fat_start_sector ≡ s.fat_start_sector
      → sectors d' ≡ sectors d
      → ((j i : ℕ)
          → i < 512
          → byte d' j i ≡ (
              if j == fat_sector B s c || j == u32 (fat_sector B s c + 1)
              then pack (odd c) (loaded B L s d (fat_sector B s c)) (entry_offset c) value i
              else byte d j i))
      → (read_fat_entry B s' c').0 ≡ (read_fat_entry B s c').0
  others s s' d d' c value c' (e, small, hk, hl, n) (_, small', hk', hl', n') (ne, away) e' start
        size at =
      elim (Bool-cases (fat_sector B s c' == fat_sector B s c)) [
        | inl same ↦
            let f : ℕ → ℕ = loaded B L s d (fat_sector B s c) in
            let k : fat_sector B s c' ≡ fat_sector B s c =
              (==_iff (fat_sector B s c') (fat_sector B s c)).0 same in
            read_there s s' d' c' e' start (rw size hk') n' (pack (odd c) f (entry_offset c) value)
              (λ i l. at (fat_sector B s c') i l ∙ rw same refl)
            ∙ unpack-pack_ne c c' f value (λ q. ne (sym q)) (same_sector s c c' small small' k)
            ∙ sym (read_there s s d c' e refl hk' n' f (λ i l. rw k (rw (lt→ltb i 512 l) refl)))
        | inr other ↦
            read_there s s' d' c' e' start (rw size hk') n' (byte d (fat_sector B s c')) (λ i l.
              at (fat_sector B s c') i l
              ∙ rw (other, ==_ne (fat_sector B s c') (u32 (fat_sector B s c + 1)) away) refl)
            ∙ sym (read_there s s d c' e refl hk' n' (byte d (fat_sector B s c')) (λ i l. refl))
      ]

  -- An entry that lies in one sector, in reach: writing it succeeds, reading it back gives the twelve low
  -- bits of what was written, and every entry in reach outside the next sector reads as before.
  pub read_fat_entry-write_fat_entry :
      (s : Fs B) (d : B.Dev) (c value : ℕ)
      → Reachable s d c
      → (s' : Fs B) × (write_fat_entry B s c value ≡ (ok, s'))
        × ((read_fat_entry B s' c).0 ≡ value % 4096)
        × ((c' : ℕ)
            → Reachable s d c'
            → Apart s c c'
            → (read_fat_entry B s' c').0 ≡ (read_fat_entry B s c').0)
  read_fat_entry-write_fat_entry s d c value (e, small, hk, hl, n) =
      let (s', d', w, e', start, size, at) = write_fat_entry_lem B L s d c value e hk hl in
      (
        s',
        w,
        read_there s s' d' c e' start (rw size hk) n
              (pack (odd c) (loaded B L s d (fat_sector B s c)) (entry_offset c) value)
              (λ i l. at (fat_sector B s c) i l ∙ ground arith)
            ∙ unpack-pack (odd c) (loaded B L s d (fat_sector B s c)) (entry_offset c) value,
        λ c' r a. others s s' d d' c value c' (e, small, hk, hl, n) r a e' start size at,
      )

  -- Writing an entry makes the sector behind it in the table a copy of the sector that holds the entry:
  -- what stood in there is gone.
  pub write_fat_entry_overwrites :
      (s : Fs B) (d : B.Dev) (c value : ℕ)
      → s.fs_device ≡ some d
      → fat_sector B s c < sectors d
      → u32 (fat_sector B s c + 1) < sectors d
      → (s' : Fs B) × (d' : B.Dev) × (write_fat_entry B s c value ≡ (ok, s'))
        × (s'.fs_device ≡ some d')
        × ((i : ℕ)
            → i < 512
            → byte d' (u32 (fat_sector B s c + 1)) i ≡ byte d' (fat_sector B s c) i)
  write_fat_entry_overwrites s d c value e hk hl =
      let (s', d', w, e', _, _, at) = write_fat_entry_lem B L s d c value e hk hl in
      (
        s',
        d',
        w,
        e',
        λ i l.
            at (u32 (fat_sector B s c + 1)) i l
            ∙ chosen (fat_sector B s c) (u32 (fat_sector B s c + 1))
                (pack (odd c) (loaded B L s d (fat_sector B s c)) (entry_offset c) value i)
                (byte d (u32 (fat_sector B s c + 1)) i)
            ∙ sym (at (fat_sector B s c) i l ∙ rw (==_refl (fat_sector B s c)) refl),
      )

  -- Of an entry whose two bytes lie in different sectors, only what the first byte holds of it reaches
  -- the device: values that agree in those bits, four of them for an odd cluster and eight for an even
  -- one, are written with success and leave the same bytes.
  pub write_fat_entry_loses :
      (s : Fs B) (d : B.Dev) (c v w : ℕ)
      → s.fs_device ≡ some d
      → fat_sector B s c < sectors d
      → u32 (fat_sector B s c + 1) < sectors d
      → entry_offset c ≡ 511
      → v % (if odd c then 16 else 256) ≡ w % (if odd c then 16 else 256)
      → (sv sw : Fs B) × (dv dw : B.Dev) × (write_fat_entry B s c v ≡ (ok, sv))
        × (write_fat_entry B s c w ≡ (ok, sw))
        × (sv.fs_device ≡ some dv)
        × (sw.fs_device ≡ some dw)
        × ((j i : ℕ) → i < 512 → byte dv j i ≡ byte dw j i)
  write_fat_entry_loses s d c v w e hk hl n same =
      let (sv, dv, rv, ev, _, _, atv) = write_fat_entry_lem B L s d c v e hk hl in
      let (sw, dw, rw', ew, _, _, atw) = write_fat_entry_lem B L s d c w e hk hl in
      (
        sv,
        sw,
        dv,
        dw,
        rv,
        rw',
        ev,
        ew,
        λ j i l.
            atv j i l
            ∙ ap
                (λ b.
                  if j == fat_sector B s c || j == u32 (fat_sector B s c + 1)
                  then b
                  else byte d j i)
                (pack_first (odd c) (loaded B L s d (fat_sector B s c)) (entry_offset c) v w i n l
                  same)
            ∙ sym (atw j i l),
      )
