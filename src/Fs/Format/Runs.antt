-- ===== src/Fs/Format/Runs.antt =====
-- The loops that write sectors, on a device that keeps its promises.
use smart_os.Base.{
  ℕ, zero, suc, ◌+◌, ◌*◌, ◌^◌, ◌≤◌, ◌<◌, ◌≡◌, refl, ap, ◌∙◌, ◌&&◌, some, u32, arith, ◌==◌, ltb, leb,
  if◌then◌else◌,
}
use smart_os.Block.{BlockDevice, IsLawful, block_write}
use smart_os.Fs.{ok}
use smart_os.Fs.Fat.{is_ok}
use smart_os.Fs.Format.{
  zeros, sectors_per_fat, boot_sector, clear_behind_first, write_run, next_table, write_fats,
  write_boot, write_root,
}

-- A device of which the layout leaves room for files.
abbrev pub Fits : ℕ → ℕ → Type 0
Fits total_sectors size = (19 ≤ total_sectors) × (total_sectors ≤ 2 ^ 24) × (total_sectors ≤ size)

pub spf_bounds :
    (t : ℕ)
    → 19 ≤ t
    → t ≤ 2 ^ 24
    → (1 ≤ sectors_per_fat t) × (15 + 2 * sectors_per_fat t ≤ t) × (sectors_per_fat t < 65536)
spf_bounds t lo hi = (omega (arith, lo, hi), omega (arith, lo, hi), omega arith)

-- One sector and the run behind it.
joined :
    (start i n k k0 v : ℕ)
    → k0 ≡ start + i
    → (if leb (start + (i + 1)) k && ltb k (start + (i + 1) + n)
        then 0
        else (if k == k0 then 0 else v))
      ≡ (if leb (start + i) k && ltb k (start + i + suc n) then 0 else v)
joined start i n k k0 v e = ground arith

first_joined :
    (start n k k0 u v : ℕ)
    → k0 ≡ start
    → (if leb (start + 1) k && ltb k (start + 1 + n) then 0 else (if k == k0 then u else v))
      ≡ (if k == start then u else if leb start k && ltb k (start + suc n) then 0 else v)
first_joined start n k k0 u v e = ground arith

tables_joined :
    (spf k u v : ℕ)
    → 1 ≤ spf
    → (if leb (1 + 1 * spf + 0) k && ltb k (1 + 1 * spf + 0 + spf)
        then 0
        else (if k == 1 then u else if leb 1 k && ltb k (1 + spf) then 0 else v))
      ≡ (if k == 1 then u else if leb 1 k && ltb k (1 + 2 * spf) then 0 else v)
tables_joined spf k u v h = ground arith

clear_keeps : (i : ℕ) (b : ℕ → ℕ) → ((x : ℕ) → b x ≡ 0) → (x : ℕ) → clear_behind_first i b x ≡ 0
clear_keeps i b z x = ground (arith, z x)

module _ (B : BlockDevice) (L : IsLawful B) where
  open L use {sectors, byte, read_ok, read_byte, write_ok, write_byte, write_sectors}

  -- A loop that writes a zero buffer, and keeps it zero.
  run_zero :
      (after : ℕ → (ℕ → ℕ) → ℕ → ℕ)
      → ((i : ℕ) (b : ℕ → ℕ) → ((x : ℕ) → b x ≡ 0) → (x : ℕ) → after i b x ≡ 0)
      → (n i start : ℕ) (d : B.Dev) (buffer : ℕ → ℕ) → ((x : ℕ) → buffer x ≡ 0)
      → start + i + n ≤ sectors d
      → start + i + n ≤ 2 ^ 32
      → (d' : B.Dev) × (b' : ℕ → ℕ) × (write_run B after n i start (some d) buffer
          ≡ (ok, some d', b'))
        × (sectors d' ≡ sectors d)
        × ((x : ℕ) → b' x ≡ 0)
        × ((k x : ℕ)
            → x < 512
            → byte d' k x ≡ (if leb (start + i) k && ltb k (start + i + n) then 0 else byte d k x))
  unfolding write_run block_write
  run_zero after keeps zero i start d buffer z h w =
      (d, buffer, refl, refl, z, λ k x l. ground arith)
  run_zero after keeps (suc n) i start d buffer z h w =
      let k0 : ℕ = u32 (start + i) in
      let here : k0 ≡ start + i = omega (arith, w) in
      let d1 : B.Dev = (B.write d k0 buffer).1 in
      let size : sectors d1 ≡ sectors d = write_sectors d k0 buffer in
      let inside : k0 < sectors d = omega (arith, h, here) in
      let (d', b', r, s, z', at) =
        run_zero after keeps n (i + 1) start d1 (after i buffer) (keeps i buffer z)
          (omega (arith, h, size)) (omega (arith, w)) in
      (
        d',
        b',
        rw (write_run, block_write, ap is_ok (write_ok d k0 buffer inside)) r,
        s ∙ size,
        z',
        λ k x l.
            at k x l
            ∙ rw (write_byte d k0 buffer k x inside l, z x)
                (joined start i n k k0 (byte d k x) here),
      )

  -- The first table: its first sector holds the buffer, the others are zero.
  run_first :
      (n start : ℕ) (d : B.Dev) (buffer : ℕ → ℕ)
      → start + suc n ≤ sectors d
      → start + suc n ≤ 2 ^ 32
      → (d' : B.Dev) × (b' : ℕ → ℕ) × (write_run B clear_behind_first
            (suc n)
            0
            start
            (some d)
            buffer
          ≡ (ok, some d', b'))
        × (sectors d' ≡ sectors d)
        × ((x : ℕ) → b' x ≡ 0)
        × ((k x : ℕ)
            → x < 512
            → byte d' k x ≡ (
                if k == start
                then buffer x
                else if leb start k && ltb k (start + suc n)
                then 0
                else byte d k x))
  unfolding write_run block_write
  run_first n start d buffer h w =
      let k0 : ℕ = u32 (start + 0) in
      let here : k0 ≡ start = omega (arith, w) in
      let d1 : B.Dev = (B.write d k0 buffer).1 in
      let size : sectors d1 ≡ sectors d = write_sectors d k0 buffer in
      let inside : k0 < sectors d = omega (arith, h, here) in
      let (d', b', r, s, z', at) =
        run_zero clear_behind_first clear_keeps n 1 start d1 (clear_behind_first 0 buffer)
          (λ x. refl) (omega (arith, h, size)) (omega (arith, w)) in
      (
        d',
        b',
        rw (write_run, block_write, ap is_ok (write_ok d k0 buffer inside)) r,
        s ∙ size,
        z',
        λ k x l.
            at k x l
            ∙ rw (write_byte d k0 buffer k x inside l)
                (first_joined start n k k0 (buffer x) (byte d k x) here),
      )

  -- Both tables.
  pub fats_lem :
      (spf : ℕ) (d : B.Dev) (buffer : ℕ → ℕ)
      → 1 ≤ spf
      → spf < 65536
      → 1 + 2 * spf ≤ sectors d
      → (d' : B.Dev) × (write_fats B 2 0 spf (some d) buffer ≡ (ok, some d'))
        × (sectors d' ≡ sectors d)
        × ((k x : ℕ)
            → x < 512
            → byte d' k x ≡ (
                if k == 1
                then buffer x
                else if leb 1 k && ltb k (1 + 2 * spf)
                then 0
                else byte d k x))
  unfolding write_fats
  fats_lem zero d buffer lo hi h = absurd (omega (arith, lo))
  fats_lem (suc n) d buffer lo hi h =
      let (d1, b1, r1, s1, z1, at1) =
        run_first n 1 d buffer (omega (arith, h)) (omega (arith, hi)) in
      let (d2, b2, r2, s2, _, at2) =
        run_zero clear_behind_first clear_keeps (suc n) 0 (1 + 1 * suc n) d1 b1 z1
          (omega (arith, h, s1)) (omega (arith, hi)) in
      (
        d2,
        ap (λ r. next_table B r (λ dev buffer. write_fats B 1 1 (suc n) dev buffer))
              (ap (λ st. write_run B clear_behind_first (suc n) 0 st (some d) buffer)
                  {x = 1 + 0 * suc n} {y = 1} (omega arith)
                ∙ r1)
            ∙ ap (λ r. next_table B r (λ dev buffer. write_fats B 0 2 (suc n) dev buffer)) r2,
        s2 ∙ s1,
        λ k x l. at2 k x l ∙ rw (at1 k x l) (tables_joined (suc n) k (buffer x) (byte d k x) lo),
      )

  pub root_lem :
      (spf : ℕ) (d : B.Dev)
      → spf < 65536
      → 15 + 2 * spf ≤ sectors d
      → (d' : B.Dev) × (write_root B spf (some d) ≡ (ok, some d'))
        × (sectors d' ≡ sectors d)
        × ((k x : ℕ)
            → x < 512
            → byte d' k x ≡ (if leb (1 + 2 * spf) k && ltb k (15 + 2 * spf) then 0 else byte d k x))
  unfolding write_root
  root_lem spf d hi h =
      let (d', b', r, s, _, at) =
        run_zero (λ i buffer. buffer) (λ i b z. z) 14 0 (1 + 2 * spf) d zeros (λ x. refl)
          (omega (arith, h)) (omega (arith, hi)) in
      (d', ap (λ r. (r.0, r.1)) r, s, λ k x l. at k x l ∙ ground arith)

  pub boot_lem :
      (t : ℕ) (d : B.Dev)
      → 0 < sectors d
      → (d' : B.Dev) × (write_boot B t (some d) ≡ (ok, some d'))
        × (sectors d' ≡ sectors d)
        × ((k x : ℕ) → x < 512 → byte d' k x ≡ (if k == 0 then boot_sector t x else byte d k x))
  unfolding write_boot block_write
  boot_lem t d h = (
    (B.write d 0 (boot_sector t)).1,
    rw (write_boot, block_write, ap is_ok (write_ok d 0 (boot_sector t) h)) refl,
    write_sectors d 0 (boot_sector t),
    λ k x l. write_byte d 0 (boot_sector t) k x h l,
  )
