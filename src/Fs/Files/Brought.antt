-- ===== src/Fs/Files/Brought.antt =====
-- Reading a file whose bytes lie in its first cluster.
use smart_os.Base.{
  ℕ, zero, suc, ◌+◌, ◌-◌, ◌*◌, ◌/◌, ◌%◌, ◌≤◌, ◌<◌, ◌≡◌, refl, sym, ap, ◌∙◌, true, false, inl, inr,
  some, u16, u32, sub_u32, arith, ltb, leb, Bool-cases,
}
use native.Mathlib.Nat.{div-eq_of_lt, mod-eq_of_lt}
use smart_os.Block.{BlockDevice, IsLawful, block_read}
use smart_os.Fs.{ok, Fs, File}
use smart_os.Fs.Fat.Entries.{get_next_cluster_keeps}
use smart_os.Fs.Files.{
  memcpy, cut_size, Reader, wants_more, copy_size, next_sector, take_bytes, skip_clusters,
  read_loop, begin_read, read_file,
}
use smart_os.Fs.Files.Content.{first_sector, content, Placed, read_at}

module _ (B : BlockDevice) (L : IsLawful B) where
  open L use {byte}

  abbrev reader : Fs B → ℕ → File → (ℕ → ℕ) → ℕ → (ℕ → ℕ) → Reader B
  reader s c file dst total buffer = record {
    fs = s;
    file = file;
    dst = dst;
    total_read = total;
    cluster = c;
    sector_offset = file.position / 512;
    sector_buffer = buffer;
  }

  loop_done :
      (fuel size : ℕ) (r : Reader B) → size ≤ r.total_read → read_loop B fuel size r ≡ (ok, r)
  unfolding read_loop
  loop_done zero size r h = refl
  loop_done (suc fuel) size r h =
      let e : wants_more B size r ≡ false = ground arith in rw (read_loop, e) refl

  -- The bytes that the caller's buffer holds after `total` of them.
  abbrev Holds : Fs B → B.Dev → ℕ → ℕ → ℕ → (ℕ → ℕ) → Type 0
  Holds s d c from total dst = (x : ℕ) → x < total → dst x ≡ content B L s d c (from + x)

  take-Holds :
      (s : Fs B) (d : B.Dev) (c from total position n : ℕ) (dst buffer : ℕ → ℕ)
      → Holds s d c from total dst
      → position ≡ from + total
      → ((i : ℕ) → i < 512 → buffer i ≡ byte d (first_sector B L s c + position / 512) i)
      → n ≤ 512 - position % 512
      → Holds s d c from (total + n) (memcpy dst total buffer (position % 512) n)
  take-Holds s d c from total position n dst buffer old at new small x h =
      elim (Bool-cases (leb total x)) [
        | inr before ↦ ground (arith, old x (ground (arith, before)))
        | inl behind ↦
            let i : ℕ = position % 512 + (x - total) in
            let low : i < 512 = ground (arith, behind, small, h) in
            let e : i ≡ (from + x) % 512 = ground (arith, at, behind, small, h) in
            let k : position / 512 ≡ (from + x) / 512 = ground (arith, at, behind, small, h) in
            let m : memcpy dst total buffer (position % 512) n x ≡ buffer i =
              ground (arith, behind, h) in
            m ∙ new i low ∙ rw (e, k) refl
      ]

  -- What reading leaves alone of the state and of the handle.
  abbrev pub Kept : Fs B → File → Fs B → File → Type 0
  Kept s file t g =
      (t.fs_device ≡ s.fs_device)
      × (t.data_start_sector ≡ s.data_start_sector)
      × (t.sectors_per_cluster ≡ s.sectors_per_cluster)
      × (g.first_cluster ≡ file.first_cluster)
      × (g.file_size ≡ file.file_size)

  -- A reader that has brought all of it.
  abbrev Complete : Fs B → B.Dev → ℕ → ℕ → ℕ → File → Reader B → Type 0
  Complete s d c from size file r =
      (r.total_read ≡ size)
      × (r.file.position ≡ from + size)
      × Holds s d c from size r.dst
      × Kept s file r.fs r.file

  -- A round that does not bring the last byte leaves the reader at the sector behind.
  next_sector-reader :
      (s : Fs B) (d : B.Dev) (c size from : ℕ) (file : File) (dst : ℕ → ℕ) (total : ℕ)
      (buffer loaded : ℕ → ℕ) (file' : File) (dst' : ℕ → ℕ) (total' n : ℕ)
      → Placed B L s d c
      → from + size ≤ s.sectors_per_cluster * 512
      → file.position ≡ from + total
      → total + n < size
      → n ≡ 512 - file.position % 512
      → file'.position ≡ from + (total + n)
      → next_sector B (record (reader s c file dst total buffer) {
        file = file';
        dst = dst';
        total_read = total';
        sector_buffer = loaded;
      })
        ≡ reader s c file' dst' total' loaded
  next_sector-reader s d c size from file dst total buffer loaded file' dst' total' n P fits at more
        full at' =
      let k : u32 (file.position / 512 + 1) ≡ file'.position / 512 =
        omega (arith, at, at', full, more, fits, P.3) in
      let inside : leb s.sectors_per_cluster (u32 (file.position / 512 + 1)) ≡ false =
        rw k (ground (arith, at', more, fits)) in
      rw (inside, k) refl

  next_sector-Complete :
      (s : Fs B) (d : B.Dev) (c from size : ℕ) (file : File) (r : Reader B)
      → Complete s d c from size file r
      → Complete s d c from size file (next_sector B r) × (size ≤ (next_sector B r).total_read)
  next_sector-Complete s d c from size file r (a, b, h, (k, l, m, n, o)) =
      let (x, y, z) = get_next_cluster_keeps B r.fs r.cluster in
      elim (Bool-cases (leb r.fs.sectors_per_cluster (u32 (r.sector_offset + 1)))) [
        | inl over ↦ rw over ((a, b, h, (x ∙ k, y ∙ l, z ∙ m, n, o)), omega (arith, a))
        | inr within ↦ rw within ((a, b, h, (k, l, m, n, o)), omega (arith, a))
      ]

  -- What the loop brings where the bytes asked for lie in the cluster.
  pub read_loop-content :
      (fuel : ℕ) (s : Fs B) (d : B.Dev) (c size from : ℕ) (file : File) (dst : ℕ → ℕ) (total : ℕ)
      (buffer : ℕ → ℕ)
      → Placed B L s d c
      → from + size ≤ s.sectors_per_cluster * 512
      → total ≤ size
      → file.position ≡ from + total
      → Holds s d c from total dst
      → size - total ≤ fuel
      → (r : Reader B) × (read_loop B fuel size (reader s c file dst total buffer) ≡ (ok, r))
        × Complete s d c from size file r
  unfolding read_loop
  read_loop-content zero s d c size from file dst total buffer P fits below at held enough =
      let e : total ≡ size = omega (arith, below, enough) in
      (
        reader s c file dst total buffer,
        refl,
        (
          e,
          at ∙ ap (λ t. from + t) e,
          λ x h. held x (omega (arith, e, h)),
          (refl, refl, refl, refl, refl),
        ),
      )
  read_loop-content (suc fuel) s d c size from file dst total buffer P fits below at held enough =
      let r : Reader B = reader s c file dst total buffer in
      elim (Bool-cases (ltb total size)) [
        | inr done ↦
            let e : total ≡ size = ground (arith, below, done) in
            (
              r,
              loop_done (suc fuel) size r (omega (arith, e)),
              (
                e,
                at ∙ ap (λ t. from + t) e,
                λ x h. held x (omega (arith, e, h)),
                (refl, refl, refl, refl, refl),
              ),
            )
        | inl more ↦
            let less : total < size = ground (arith, more) in
            let p : ℕ = file.position in
            let wants : wants_more B size r ≡ true = ground (arith, more, P.1, P.2) in
            let sector : ℕ =
              u32 (s.data_start_sector + sub_u32 c 2 * s.sectors_per_cluster + p / 512) in
            let loaded : ℕ → ℕ = (block_read B s.fs_device sector buffer).1 in
            let (good, new) =
              read_at B L s d c (p / 512) buffer P (omega (arith, at, less, fits)) in
            let n : ℕ = copy_size B size r in
            let taken : Reader B = take_bytes B size r loaded in
            let some_byte : 1 ≤ n = ground (arith, less) in
            let high : total + n ≤ size = ground (arith, less) in
            let t : taken.total_read ≡ total + n = omega (arith, high, fits, P.3) in
            let q : taken.file.position ≡ from + (total + n) = omega (arith, high, fits, P.3, at) in
            let now : Holds s d c from taken.total_read taken.dst =
              rw t (take-Holds s d c from total p n dst loaded held at new (ground arith)) in
            let step : read_loop B (suc fuel) size r ≡ read_loop B fuel size (next_sector B taken) =
              rw (read_loop, wants, good) refl in
            elim (Bool-cases (ltb (total + n) size)) [
              | inr all ↦
                  let e : total + n ≡ size = ground (arith, high, all) in
                  let last : Reader B = next_sector B taken in
                  let done : Complete s d c from size file taken = (
                    t ∙ e,
                    q ∙ ap (λ k. from + k) e,
                    λ x h. now x (omega (arith, t, e, h)),
                    (refl, refl, refl, refl, refl),
                  ) in
                  let (end, enough') = next_sector-Complete s d c from size file taken done in
                  (last, step ∙ loop_done fuel size last enough', end)
              | inl again ↦
                  let back : next_sector B taken
                      ≡ reader s c taken.file taken.dst taken.total_read loaded =
                    next_sector-reader s d c size from file dst total buffer loaded taken.file
                      taken.dst taken.total_read n P fits at (ground (arith, again))
                      (ground (arith, again)) q in
                  let (r', end, all) =
                    read_loop-content fuel s d c size from taken.file taken.dst taken.total_read
                      loaded P fits (omega (arith, t, high)) (q ∙ ap (λ k. from + k) (sym t)) now
                      (omega (arith, t, enough, some_byte, less)) in
                  (r', step ∙ ap (read_loop B fuel size) back ∙ end, all)
            ]
      ]

  begin_read-reader :
      (s : Fs B) (d : B.Dev) (file : File) (buffer sector_buffer : ℕ → ℕ)
      → Placed B L s d file.first_cluster
      → file.position < s.sectors_per_cluster * 512
      → begin_read B s file buffer sector_buffer
        ≡ reader s file.first_cluster file buffer 0 sector_buffer
  unfolding begin_read skip_clusters
  begin_read-reader s d file buffer sector_buffer (_, _, high, small, _, _) h =
      let cb : u32 (s.sectors_per_cluster * 512) ≡ s.sectors_per_cluster * 512 =
        omega (arith, small) in
      let none_before : file.position / (s.sectors_per_cluster * 512) ≡ 0 = div-eq_of_lt h in
      let inside : file.position % (s.sectors_per_cluster * 512) ≡ file.position = mod-eq_of_lt h in
      let c : u16 file.first_cluster ≡ file.first_cluster = omega (arith, high) in
      rw (cb, none_before, inside, c) refl

  -- A file with a first cluster on the device, in which its bytes lie: reading from a position within the file
  -- succeeds and brings the bytes from there on, as many as are asked for and the file holds; the position moves
  -- by that number. The device, the layout and the handle are otherwise as before.
  pub read_file-content :
      (s : Fs B) (d : B.Dev) (file : File) (buffer : ℕ → ℕ) (size : ℕ) (sector_buffer : ℕ → ℕ)
      → Placed B L s d file.first_cluster
      → file.file_size ≤ s.sectors_per_cluster * 512
      → file.position ≤ file.file_size
      → let n = cut_size file size in
        let r = read_file B s file buffer size true sector_buffer in
        (r.status ≡ ok)
        × (r.bytes_read ≡ some n)
        × (r.handle.position ≡ file.position + n)
        × ((x : ℕ) → x < n → r.buffer x ≡ content B L s d file.first_cluster (file.position + x))
        × Kept s file r.state r.handle
  unfolding read_file begin_read skip_clusters
  read_file-content s d file buffer size sector_buffer P fits within =
      let c : ℕ = file.first_cluster in
      elim (Bool-cases (leb file.file_size file.position)) [
        | inl past ↦
            let e : cut_size file size ≡ 0 = ground (arith, past) in
            rw (read_file, past, e)
              (
                refl,
                refl,
                omega arith,
                λ x h. absurd (omega (arith, h)),
                (refl, refl, refl, refl, refl),
              )
        | inr before ↦
            let n : ℕ = cut_size file size in
            let start : Reader B = begin_read B s file buffer sector_buffer in
            let (r, e, (total, position, holds, kept)) =
              read_loop-content n s d c n file.position file buffer 0 sector_buffer P
                (ground (arith, before, fits)) (omega arith) (omega arith)
                (λ x h. absurd (omega (arith, h))) (omega arith) in
            let back : start ≡ reader s c file buffer 0 sector_buffer =
              begin_read-reader s d file buffer sector_buffer P (ground (arith, before, fits)) in
            let run : read_loop B n n start ≡ (ok, r) = ap (read_loop B n n) back ∙ e in
            rw (read_file, before, run) (refl, ap some total, position, holds, kept)
      ]
