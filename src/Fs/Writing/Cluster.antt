-- ===== src/Fs/Writing/Cluster.antt =====
-- What the loop that writes leaves on the device where the bytes fit a cluster.
use smart_os.Base.{
  ℕ, zero, suc, ◌+◌, ◌-◌, ◌*◌, ◌/◌, ◌%◌, ◌≤◌, ◌<◌, ◌≡◌, refl, sym, ap, ◌∙◌, true, false, ◌⊎◌, inl,
  inr, ◌&&◌, ◌||◌, some, arith, ◌==◌, ltb, leb, if◌then◌else◌, Bool-cases,
}
use native.Mathlib.Nat.{mod-eq_of_lt}
use smart_os.Block.{BlockDevice, IsLawful, block_read, block_write}
use smart_os.Block as Block
use smart_os.Fs.{ok, Fs}
use smart_os.Fs.Fat.{is_ok}
use smart_os.Fs.Files.{memcpy}
use smart_os.Fs.Files.Content.{first_sector, content, Placed, sector_at, read_at}
use smart_os.Fs.Writing.{
  Writer, cluster_bytes, sector_of_end, offset_of_end, write_size, load_sector, stored, put_sector,
  grow, write_loop,
}

-- The byte at `x`, of which `v` is the old value, after the sector of `at` was changed by `n` bytes from `at` on.
merge :
    (first x at n total v : ℕ) (loaded src : ℕ → ℕ)
    → n ≤ 512 - at % 512
    → ((first + x / 512 ≡ first + at / 512) → (loaded (x % 512) ≡ v) ⊎ ((at % 512 ≡ 0) × (n ≡ 512)))
    → (if first + x / 512 == first + at / 512
        then memcpy loaded (at % 512) src total n (x % 512)
        else v)
      ≡ (if leb at x && ltb x (at + n) then src (total + (x - at)) else v)
merge first x at n total v loaded src small old =
    elim (Bool-cases (first + x / 512 == first + at / 512)) [
      | inr other ↦ ground (arith, other, small)
      | inl same ↦
          let e : first + x / 512 ≡ first + at / 512 = ground (arith, same) in
          ground (
            arith,
            e,
            small,
            old e,
            ap src {x = total + (x % 512 - at % 512)} {y = total + (x - at)},
          )
    ]

module _ (B : BlockDevice) (L : IsLawful B) where
  open L use {sectors, byte, write_ok, write_byte, write_sectors}

  -- The cluster after the bytes of `src` from `a` on were put to its offsets from `at` up to `end`.
  abbrev pub Changed : Fs B → B.Dev → B.Dev → ℕ → ℕ → ℕ → (ℕ → ℕ) → ℕ → Type 0
  Changed s d d' c at end src a =
      (x : ℕ)
      → x < s.sectors_per_cluster * 512
      → content B L s d' c x
        ≡ (if leb at x && ltb x end then src (a + (x - at)) else content B L s d c x)

  -- The end of the file lies where the counts say, in a cluster that holds what is to come.
  abbrev pub Fitting : ℕ → ℕ → Writer B → B.Dev → Type 0
  Fitting size from w d =
      Placed B L w.fs d w.cluster
      × (from + size ≤ w.fs.sectors_per_cluster * 512)
      × (w.file.file_size ≡ from + w.total_written)

  end_of_file :
      (size from : ℕ) (w : Writer B) (d : B.Dev)
      → Fitting size from w d
      → w.total_written < size
      → (w.file.file_size % cluster_bytes B w.fs ≡ w.file.file_size)
        × (w.file.file_size / 512 < w.fs.sectors_per_cluster)
  end_of_file size from w d ((_, _, _, small, _, _), fits, e) less =
      let cb : cluster_bytes B w.fs ≡ w.fs.sectors_per_cluster * 512 = omega (arith, small) in
      (rw cb (mod-eq_of_lt (omega (arith, fits, e, less))), omega (arith, fits, e, less))

  grow-fits :
      (size from : ℕ) (w : Writer B) (d : B.Dev)
      → Fitting size from w d
      → 1 ≤ w.total_written
      → grow B size w ≡ (true, w)
  unfolding grow
  grow-fits size from w d F some_byte = elim (Bool-cases (ltb w.total_written size)) [
    | inr done ↦
        let e : (w.file.file_size % cluster_bytes B w.fs == 0 && ltb w.total_written size) ≡ false =
          ground (arith, done) in
        rw e refl
    | inl more ↦
        let (inside, _) = end_of_file size from w d F (ground (arith, more)) in
        let e : (w.file.file_size % cluster_bytes B w.fs == 0) ≡ false =
          rw inside (ground (arith, some_byte, F.2)) in
        rw e refl
  ]

  -- The sector is read, or all of it is about to be filled.
  load_sector-content :
      (size from : ℕ) (w : Writer B) (d : B.Dev)
      → Fitting size from w d
      → w.total_written < size
      → (is_ok (load_sector B size w).0 ≡ true)
        × ((i : ℕ)
            → i < 512
            → ((load_sector B size w).1 i
                ≡ byte d (first_sector B L w.fs w.cluster + w.file.file_size / 512) i)
              ⊎ ((w.file.file_size % 512 ≡ 0) × (512 ≤ size - w.total_written)))
  load_sector-content size from w d F less =
      let (inside, k) = end_of_file size from w d F less in
      let (good, at) =
        read_at B L w.fs d w.cluster (w.file.file_size / 512) w.sector_buffer F.0 k in
      elim (Bool-cases (ltb 0 (offset_of_end B w) || ltb (size - w.total_written) 512)) [
        | inl partial ↦ rw (partial, inside) (good, λ i l. inl (at i l))
        | inr whole ↦
            let offset : offset_of_end B w ≡ w.file.file_size % 512 = ap (λ k. k % 512) inside in
            rw whole (refl, λ i l. inr (ground (arith, whole, offset), ground (arith, whole)))
      ]

  write_there :
      (s : Fs B) (d : B.Dev) (k : ℕ) (buffer : ℕ → ℕ)
      → s.fs_device ≡ some d
      → k < sectors d
      → block_write B s.fs_device k buffer ≡ (Block.ok, some (B.write d k buffer).1)
  unfolding block_write
  write_there s d k buffer e h = rw (e, block_write, write_ok d k buffer h) refl

  put_sector-Changed :
      (size from : ℕ) (src : ℕ → ℕ) (w : Writer B) (d : B.Dev)
      → Fitting size from w d
      → w.total_written < size
      → let n = write_size B size w in
        (d' : B.Dev) × (b : ℕ → ℕ) × (put_sector B size src w ≡ (
          true,
          stored B n (record w { fs = record w.fs { fs_device = some d' }; sector_buffer = b }),
        ))
        × (sectors d' ≡ sectors d)
        × Changed w.fs d d' w.cluster w.file.file_size (w.file.file_size + n) src w.total_written
  unfolding put_sector
  put_sector-Changed size from src w d F less =
      let (inside, k) = end_of_file size from w d F less in
      let (e, within) = sector_at B L w.fs d w.cluster (w.file.file_size / 512) F.0 k in
      let n : ℕ = write_size B size w in
      let sector : ℕ = first_sector B L w.fs w.cluster + w.file.file_size / 512 in
      let at : sector_of_end B w ≡ sector = rw inside e in
      let (good, old) = load_sector-content size from w d F less in
      let loaded : ℕ → ℕ = (load_sector B size w).1 in
      let b : ℕ → ℕ = memcpy loaded (offset_of_end B w) src w.total_written n in
      let offset : offset_of_end B w ≡ w.file.file_size % 512 = ap (λ k. k % 512) inside in
      let done : block_write B w.fs.fs_device (sector_of_end B w) b
          ≡ (Block.ok, some (B.write d sector b).1) =
        ap (λ k. block_write B w.fs.fs_device k b) at ∙ write_there w.fs d sector b F.0.0 within in
      (
        (B.write d sector b).1,
        b,
        rw (put_sector, good, done) refl,
        write_sectors d sector b,
        λ x h.
            write_byte d sector b (first_sector B L w.fs w.cluster + x / 512) (x % 512) within
              (omega arith)
            ∙ ap
                (λ o.
                  if first_sector B L w.fs w.cluster + x / 512 == sector
                  then memcpy loaded o src w.total_written n (x % 512)
                  else content B L w.fs d w.cluster x)
                offset
            ∙ merge (first_sector B L w.fs w.cluster) x w.file.file_size n w.total_written
                (content B L w.fs d w.cluster x) loaded src (ground (arith, offset))
                (λ e. elim (old (x % 512) (omega arith)) [
                  | inl q ↦ inl (q ∙ ap (λ k. byte d k (x % 512)) (sym e))
                  | inr (a, c) ↦ inr (a, ground (arith, offset, a, c))
                ]),
      )

  -- What a loop over bytes that fit leaves: the counts, the handle, and the cluster.
  abbrev pub Left : ℕ → ℕ → (ℕ → ℕ) → Writer B → B.Dev → Writer B → B.Dev → Type 0
  Left size from src w d w' d' =
      (w'.fs.fs_device ≡ some d')
      × (w'.fs.data_start_sector ≡ w.fs.data_start_sector)
      × (w'.fs.sectors_per_cluster ≡ w.fs.sectors_per_cluster)
      × (sectors d' ≡ sectors d)
      × (w'.total_written ≡ size)
      × (w'.file.file_size ≡ from + size)
      × (w'.file.first_cluster ≡ w.file.first_cluster)
      × Changed w.fs d d' w.cluster w.file.file_size (from + size) src w.total_written

  done-Left :
      (size from : ℕ) (src : ℕ → ℕ) (w : Writer B) (d : B.Dev)
      → Fitting size from w d
      → w.total_written ≡ size
      → Left size from src w d w d
  done-Left size from src w d (P, fits, e) t =
      (P.0, refl, refl, refl, t, e ∙ ap (λ k. from + k) t, refl, λ x h. ground (arith, e, t))

  -- Two changes, one behind the other.
  join :
      (x at n end a old new newer : ℕ) (src : ℕ → ℕ)
      → at + n ≤ end
      → new ≡ (if leb at x && ltb x (at + n) then src (a + (x - at)) else old)
      → newer ≡ (if leb (at + n) x && ltb x end then src (a + n + (x - (at + n))) else new)
      → newer ≡ (if leb at x && ltb x end then src (a + (x - at)) else old)
  join x at n end a old new newer src h p q =
      ground (arith, h, p, q, ap src {x = a + n + (x - (at + n))} {y = a + (x - at)})

  next_round :
      (fuel size : ℕ) (src : ℕ → ℕ) (w w₁ w₂ : Writer B)
      → ltb w.total_written size ≡ true
      → put_sector B size src w ≡ (true, w₁)
      → grow B size w₁ ≡ (true, w₂)
      → write_loop B (suc fuel) size src w ≡ write_loop B fuel size src w₂
  unfolding write_loop
  next_round fuel size src w w₁ w₂ more put grown = rw (write_loop, more, put, grown) refl

  pub write_loop-Left :
      (fuel size from : ℕ) (src : ℕ → ℕ) (w : Writer B) (d : B.Dev)
      → Fitting size from w d
      → w.total_written ≤ size
      → size - w.total_written ≤ fuel
      → (w' : Writer B) × (d' : B.Dev) × (write_loop B fuel size src w ≡ (ok, w'))
        × Left size from src w d w' d'
  unfolding write_loop
  write_loop-Left zero size from src w d F low enough =
      (w, d, refl, done-Left size from src w d F (omega (arith, low, enough)))
  write_loop-Left (suc fuel) size from src w d F low enough =
      elim (Bool-cases (ltb w.total_written size)) [
        | inr done ↦ (
          w,
          d,
          rw (write_loop, done) refl,
          done-Left size from src w d F (ground (arith, low, done)),
        )
        | inl more ↦
            let less : w.total_written < size = ground (arith, more) in
            let n : ℕ = write_size B size w in
            let (d₁, b, put, size₁, change) = put_sector-Changed size from src w d F less in
            let w₁ : Writer B =
              stored B n
                (record w { fs = record w.fs { fs_device = some d₁ }; sector_buffer = b }) in
            let (placed, fits, e) = F in
            let (dev, c2, ch, word, on, sz) = placed in
            let some_byte : 1 ≤ n = ground (arith, less) in
            let high : w.total_written + n ≤ size = ground (arith, less) in
            let t : w₁.total_written ≡ w.total_written + n = omega (arith, high, fits, word) in
            let g : w₁.file.file_size ≡ w.file.file_size + n = omega (arith, high, fits, word, e) in
            let F₁ : Fitting size from w₁ d₁ =
              ((refl, c2, ch, word, rw size₁ on, rw size₁ sz), fits, omega (arith, t, g, e)) in
            let grown : grow B size w₁ ≡ (true, w₁) =
              grow-fits size from w₁ d₁ F₁ (omega (arith, t, some_byte)) in
            let (w', d', end, (a, p, q, k, total, fsize, first, later)) =
              write_loop-Left fuel size from src w₁ d₁ F₁ (omega (arith, t, high))
                (omega (arith, t, some_byte, enough)) in
            (
              w',
              d',
              next_round fuel size src w w₁ w₁ more put grown ∙ end,
              (
                a,
                p,
                q,
                k ∙ size₁,
                total,
                fsize,
                first,
                λ x h.
                    join x w.file.file_size n (from + size) w.total_written
                      (content B L w.fs d w.cluster x) (content B L w.fs d₁ w.cluster x)
                      (content B L w.fs d' w.cluster x) src (omega (arith, e, high)) (change x h)
                      (later x h ∙ rw (t, g) refl),
              ),
            )
      ]
