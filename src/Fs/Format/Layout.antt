-- ===== src/Fs/Format/Layout.antt =====
-- What formatting leaves on a device that keeps its promises, and what mounting it then takes from it.
use smart_os.Base.{
  ℕ, ◌+◌, ◌*◌, ◌/◌, ◌%◌, ◌^◌, ◌≤◌, ◌<◌, ◌≡◌, ap, ap₂, ◌∙◌, ◌&&◌, some, u32, arith, ◌==◌, ltb, leb,
  lt→ltb, if◌then◌else◌,
}
use smart_os.Block.{BlockDevice, IsLawful, block_read}
use smart_os.Fs.{Status, ok, error, Fs}
use smart_os.Fs.Fat.{is_ok}
use smart_os.Fs.Format.{
  sectors_per_fat, boot_sector, fat_head, write_fats, and_then, write_root, format, take_bpb, init,
}
use smart_os.Fs.Format.Runs.{Fits, spf_bounds, fats_lem, root_lem, boot_lem}

module _ (B : BlockDevice) (L : IsLawful B) where
  open L use {sectors, byte, read_ok, read_byte, write_ok, write_byte, write_sectors}

  layout_joined :
      (spf k u v w : ℕ)
      → 1 ≤ spf
      → (if leb (1 + 2 * spf) k && ltb k (15 + 2 * spf)
          then 0
          else (if k == 1
              then u
              else if leb 1 k && ltb k (1 + 2 * spf)
              then 0
              else (if k == 0 then v else w)))
        ≡ (if k == 0 then v else if k == 1 then u else if ltb k (15 + 2 * spf) then 0 else w)
  layout_joined spf k u v w h = ground arith

  sizes :
      (s : Fs B) (w : ℕ)
      → w < 65536
      → ◌≡◌ {A = Status × Fs B}
          (
            ok,
            record s {
              sectors_per_cluster = 1;
              fat_start_sector = 1;
              root_dir_start_sector = u32 (1 + 2 * (w % 256 + w / 256 % 256 * 256));
              data_start_sector = u32 (u32 (1 + 2 * (w % 256 + w / 256 % 256 * 256)) + 14);
            },
          )
          (
            ok,
            record s {
              sectors_per_cluster = 1;
              fat_start_sector = 1;
              root_dir_start_sector = 1 + 2 * w;
              data_start_sector = 15 + 2 * w;
            },
          )
  sizes s w h =
      ap₂
        (λ r q. (
          ok,
          record s {
            sectors_per_cluster = 1;
            fat_start_sector = 1;
            root_dir_start_sector = r;
            data_start_sector = q;
          },
        ))
        {x = u32 (1 + 2 * (w % 256 + w / 256 % 256 * 256))} {y = 1 + 2 * w} (omega (arith, h))
        (omega (arith, h))

  -- The boot sector reads as it was put together.
  bpb_read :
      (s : Fs B) (t : ℕ) (b : ℕ → ℕ)
      → t ≤ 2 ^ 24
      → ((x : ℕ) → x < 512 → b x ≡ boot_sector t x)
      → take_bpb B s b ≡ (
        ok,
        record s {
          sectors_per_cluster = 1;
          fat_start_sector = 1;
          root_dir_start_sector = 1 + 2 * sectors_per_fat t;
          data_start_sector = 15 + 2 * sectors_per_fat t;
        },
      )
  unfolding boot_sector
  bpb_read s t b hi at =
      rw
        (
          at 11 (omega arith),
          at 12 (omega arith),
          at 13 (omega arith),
          at 14 (omega arith),
          at 15 (omega arith),
          at 16 (omega arith),
          at 17 (omega arith),
          at 18 (omega arith),
          at 22 (omega arith),
          at 23 (omega arith),
        )
        (sizes s (sectors_per_fat t) (omega arith))

  -- Formatting a device of at least 19 and at most 2 ^ 24 sectors succeeds. Sector 0 is the boot sector,
  -- sector 1 begins the first table, the other sectors of both tables, the first of the second among
  -- them, and of the root directory are zero, and the others stay. Mounting then succeeds, with the table
  -- at sector 1, the root directory behind two tables, and the files 14 sectors further on.
  pub init-format :
      (s : Fs B) (d : B.Dev) (t : ℕ) (buffer : ℕ → ℕ)
      → Fits t (sectors d)
      → (d' : B.Dev) × (format B (some d) t ≡ (ok, some d'))
        × ((k x : ℕ)
            → x < 512
            → byte d' k x ≡ (
                if k == 0
                then boot_sector t x
                else if k == 1
                then fat_head x
                else if ltb k (15 + 2 * sectors_per_fat t)
                then 0
                else byte d k x))
        × (init B s (some d') buffer ≡ (
          ok,
          record s {
            fs_device = some d';
            sectors_per_cluster = 1;
            fat_start_sector = 1;
            root_dir_start_sector = 1 + 2 * sectors_per_fat t;
            data_start_sector = 15 + 2 * sectors_per_fat t;
          },
        ))
  unfolding format init block_read
  init-format s d t buffer (lo, hi, h) =
      let (one, fit, word) = spf_bounds t lo hi in
      let spf : ℕ = sectors_per_fat t in
      let (d1, r1, s1, at1) = boot_lem B L t d (omega (arith, lo, h)) in
      let (d2, r2, s2, at2) = fats_lem B L spf d1 fat_head one word (omega (arith, fit, h, s1)) in
      let (d3, r3, s3, at3) = root_lem B L spf d2 word (omega (arith, fit, h, s1, s2)) in
      let size : sectors d3 ≡ sectors d = s3 ∙ s2 ∙ s1 in
      let first : 0 < sectors d3 = omega (arith, size, lo, h) in
      let layout = λ (k x : ℕ) (l : x < 512).
        at3 k x l
        ∙ rw (at2 k x l, at1 k x l)
            (layout_joined spf k (fat_head x) (boot_sector t x) (byte d k x) one) in
      let s' : Fs B = record s { fs_device = some d3 } in
      (
        d3,
        ap
              (λ r.
                and_then B (and_then B r (λ d. write_fats B 2 0 spf d fat_head)) (write_root B spf))
              r1
            ∙ ap (λ r. and_then B r (write_root B spf)) r2
            ∙ r3,
        layout,
        ap (λ b. if b then take_bpb B s' (B.read d3 0 buffer).1 else (error, s'))
              (ap is_ok (read_ok d3 0 buffer first))
            ∙ bpb_read s' t (B.read d3 0 buffer).1 hi
                (λ x l. read_byte d3 0 buffer x first ∙ rw (lt→ltb x 512 l) (layout 0 x l)),
      )
