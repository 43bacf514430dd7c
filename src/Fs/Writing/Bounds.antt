-- ===== src/Fs/Writing/Bounds.antt =====
-- How far writing goes, and that its loop comes to an end.
use smart_os.Base.{
  ℕ, zero, suc, ◌+◌, ◌-◌, ◌/◌, ◌%◌, ◌^◌, ◌≤◌, ◌<◌, ◌≡◌, refl, Bool, true, false, ◌⊎◌, inl, inr,
  ◌&&◌, Option, none, some, u16, u32, arith, ◌==◌, ltb, Bool-cases,
}
use smart_os.Block.{BlockDevice, block_read, block_write}
use smart_os.Block as Block
use smart_os.Fs.{Status, ok, error, full, Fs, File}
use smart_os.Fs.Fat.{is_ok, allocate_cluster}
use smart_os.Fs.Files.{memcpy}
use smart_os.Fs.Writing.{
  Writer, WriteResult, extend_chain, seek_end, cluster_bytes, sector_of_end, offset_of_end,
  write_size, load_sector, stored, put_sector, grow, write_loop, failed, finish_write, append,
  write_file,
}

module _ (B : BlockDevice) where
  -- The counts of a writer that began at the size `from` and the position `at`.
  abbrev pub Counted : ℕ → ℕ → ℕ → Writer B → Type 0
  Counted size from at w =
      (w.total_written ≤ size)
      × (w.file.file_size ≡ from + w.total_written)
      × (w.file.position ≡ at + w.total_written)

  write_size_bounds :
      (size : ℕ) (w : Writer B)
      → w.total_written < size
      → (1 ≤ write_size B size w) × (w.total_written + write_size B size w ≤ size)
  write_size_bounds size w h = (ground arith, ground arith)

  stored-Counted :
      (size from at n : ℕ) (w : Writer B)
      → Counted size from at w
      → 1 ≤ n
      → w.total_written + n ≤ size
      → from + size < 2 ^ 32
      → at + size < 2 ^ 32
      → Counted size from at (stored B n w) × (w.total_written < (stored B n w).total_written)
  stored-Counted size from at n w (a, b, c) low high f g =
      let t : u32 (w.total_written + n) ≡ w.total_written + n = omega (arith, high, f) in
      (
        (omega (arith, t, high), omega (arith, t, b, high, f), omega (arith, t, c, high, g)),
        omega (arith, t, low),
      )

  -- A sector that is stored moves the counts on; one that fails leaves them.
  put_sector-Counted :
      (size from at : ℕ) (src : ℕ → ℕ) (w : Writer B)
      → Counted size from at w
      → w.total_written < size
      → from + size < 2 ^ 32
      → at + size < 2 ^ 32
      → let (done, w') = put_sector B size src w in
        Counted size from at w'
        × (((done ≡ false) × (w'.total_written ≡ w.total_written))
            ⊎ ((done ≡ true) × (w.total_written < w'.total_written)))
  unfolding put_sector
  put_sector-Counted size from at src w i more f g =
      let n : ℕ = write_size B size w in
      let (low, high) = write_size_bounds size w more in
      let buffer : ℕ → ℕ =
        memcpy (load_sector B size w).1 (offset_of_end B w) src w.total_written n in
      let write : Block.Status × Option B.Dev =
        block_write B w.fs.fs_device (sector_of_end B w) buffer in
      let w' : Writer B = record w {
        fs = record w.fs { fs_device = write.1 };
        sector_buffer = buffer;
      } in
      elim (Bool-cases (is_ok (load_sector B size w).0)) [
        | inr bad ↦ rw (put_sector, bad) (i, inl (refl, refl))
        | inl good ↦ elim (Bool-cases (is_ok write.0)) [
          | inr bad ↦ rw (put_sector, good, bad) (i, inl (refl, refl))
          | inl fine ↦
              let (j, grows) = stored-Counted size from at n w' i low high f g in
              rw (put_sector, good, fine) (j, inr (refl, grows))
        ]
      ]

  grow-Counted :
      (size from at : ℕ) (w : Writer B)
      → Counted size from at w
      → let (done, w') = grow B size w in
        Counted size from at w'
        × (w'.total_written ≡ w.total_written)
        × ((done ≡ true) ⊎ (w'.total_written < size))
  unfolding grow
  grow-Counted size from at w i =
      let new : Option ℕ × Fs B = extend_chain B w.fs w.cluster in
      let test : Bool = w.file.file_size % cluster_bytes B w.fs == 0 && ltb w.total_written size in
      elim (Bool-cases test) [
        | inr shut ↦ rw shut (i, refl, inl refl)
        | inl open' ↦
            rw open'
              (elim new.0
                as (λ c.
                  let (done, w') = elim c as (λ _. Bool × Writer B) [
                    | none ↦ (false, record w { fs = new.1 })
                    | some k ↦ (true, record w { fs = new.1; cluster = k })
                  ] in
                  Counted size from at w'
                  × (w'.total_written ≡ w.total_written)
                  × ((done ≡ true) ⊎ (w'.total_written < size))) [
                    | none ↦ (i, refl, inr (ground (arith, open')))
                    | some k ↦ (i, refl, inl refl)
                  ])
      ]

  -- What the end of the writing says about its writer.
  abbrev pub Ended : ℕ → ℕ → ℕ → Status × Writer B → Type 0
  Ended size from at (status, w) =
      Counted size from at w
      × ((status ≡ ok) × (w.total_written ≡ size)
          ⊎ (((status ≡ full) ⊎ (status ≡ error)) × (w.total_written < size)))

  write_loop_lem :
      (fuel size from at : ℕ) (src : ℕ → ℕ) (w : Writer B)
      → Counted size from at w
      → size - w.total_written ≤ fuel
      → from + size < 2 ^ 32
      → at + size < 2 ^ 32
      → Ended size from at (write_loop B fuel size src w)
  unfolding write_loop
  write_loop_lem zero size from at src w i enough f g = (i, inl (refl, omega (arith, i.0, enough)))
  write_loop_lem (suc fuel) size from at src w i enough f g =
      elim (Bool-cases (ltb w.total_written size)) [
        | inr done ↦ rw done (i, inl (refl, ground (arith, i.0, done)))
        | inl more ↦
            let less : w.total_written < size = ground (arith, more) in
            let put : Bool × Writer B = put_sector B size src w in
            let grown : Bool × Writer B = grow B size put.1 in
            let (j, moved) = put_sector-Counted size from at src w i less f g in
            let (k, kept, went_on) = grow-Counted size from at put.1 j in
            rw more (elim (Bool-cases put.0) [
              | inr bad ↦ rw bad (j, inr (inr refl, ground (arith, moved, less, bad)))
              | inl good ↦
                  let up : w.total_written < put.1.total_written = elim moved [
                    | inl (bad, _) ↦ absurd (cc (good, bad))
                    | inr (_, h) ↦ h
                  ] in
                  rw good (elim (Bool-cases grown.0) [
                    | inr none_left ↦
                        rw none_left (k, inr (inl refl, ground (arith, went_on, none_left)))
                    | inl went ↦ rw went (
                        write_loop_lem fuel size from at src grown.1 k
                          (omega (arith, up, kept, enough, less)) f g)
                  ])
            ])
      ]

  -- What a write of `size` bytes may come to: all of them, or a status that says why not.
  abbrev pub Outcome : ℕ → File → WriteResult B → Type 0
  Outcome size file r =
      (n : ℕ) × (n ≤ size)
      × (r.handle.file_size ≡ file.file_size + n)
      × (r.handle.position ≡ file.position + n)
      × (((r.status ≡ ok) × (n ≡ size) × (r.bytes_written ≡ some size))
          ⊎ (((r.status ≡ full)
                × ((r.bytes_written ≡ some n) × (n < size) ⊎ ((r.bytes_written ≡ none) × (n ≡ 0))))
              ⊎ ((r.status ≡ error) × (n < size) × (r.bytes_written ≡ none))))

  finish_write-Outcome :
      (size : ℕ) (file : File) (e : Status × Writer B)
      → Ended size file.file_size file.position e
      → Outcome size file (finish_write B e)
  finish_write-Outcome size file (status, w) ((a, b, c), h) = (
    w.total_written,
    a,
    b,
    c,
    elim h [
      | inl (fine, all) ↦ inl (fine, all, simp (fine, all) refl)
      | inr (inl bad, less) ↦ inr (inl (bad, inl (simp bad refl, less)))
      | inr (inr bad, less) ↦ inr (inr (bad, less, simp bad refl))
    ],
  )

  append-Outcome :
      (s : Fs B) (file : File) (src : ℕ → ℕ) (size : ℕ) (buffer : ℕ → ℕ)
      → file.file_size + size < 2 ^ 32
      → file.position + size < 2 ^ 32
      → Outcome size file (append B s file src size buffer)
  unfolding append
  append-Outcome s file src size buffer f g =
      let end : Option ℕ × Fs B =
        seek_end B (file.file_size / cluster_bytes B s) s (u16 file.first_cluster) in
      elim end.0
        as (λ c. Outcome size file (elim c [
          | none ↦ failed B full end.1 file
          | some cluster ↦ finish_write B (
              write_loop B size size src (record {
                fs = end.1;
                file = file;
                total_written = 0;
                cluster = cluster;
                sector_buffer = buffer;
              }))
        ])) [
          | none ↦ (0, omega arith, omega arith, omega arith, inr (inl (refl, inr (refl, refl))))
          | some cluster ↦
              let w : Writer B = record {
                fs = end.1;
                file = file;
                total_written = 0;
                cluster = cluster;
                sector_buffer = buffer;
              } in
              finish_write-Outcome size file (write_loop B size size src w) (
                write_loop_lem size size file.file_size file.position src w
                  (omega arith, omega arith, omega arith) (omega arith) f g)
        ]

  -- A write with its three pointers, to a file whose size and position stay below 2^32: it ends with `ok`, and the
  -- number of bytes reported is `size`; or with `full`, and the number reported is less than `size`, or none is
  -- and it is 0; or with `error`, where none is reported and it is less than `size`. In every case the size and
  -- the position of the handle both grow by this number.
  pub write_file_bounds :
      (s : Fs B) (file : File) (src : ℕ → ℕ) (size : ℕ) (buffer : ℕ → ℕ)
      → file.file_size + size < 2 ^ 32
      → file.position + size < 2 ^ 32
      → Outcome size file (write_file B s file src size true buffer)
  unfolding write_file
  write_file_bounds s file src size buffer f g =
      let new : ℕ × Fs B = allocate_cluster B s in
      elim (Bool-cases (file.first_cluster == 0)) [
        | inr old ↦ rw old (append-Outcome s file src size buffer f g)
        | inl empty ↦ rw empty (elim (Bool-cases (new.0 == 0)) [
          | inl none_left ↦
              rw none_left
                (0, omega arith, omega arith, omega arith, inr (inl (refl, inr (refl, refl))))
          | inr got ↦ rw got (
              append-Outcome new.1 (record file { first_cluster = new.0; current_cluster = new.0 })
                src size buffer f g)
        ])
      ]
