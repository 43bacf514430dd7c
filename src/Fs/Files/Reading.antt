-- ===== src/Fs/Files/Reading.antt =====
-- How far reading goes, what it leaves alone, and that its loop comes to an end.
use smart_os.Base.{
  ℕ, zero, suc, ◌+◌, ◌-◌, ◌*◌, ◌%◌, ◌^◌, ◌≤◌, ◌<◌, ◌≡◌, refl, sym, ap, ◌∙◌, Bool, true, false, ◌⊎◌,
  inl, inr, none, some, u32, sub_u32, arith, leb, if◌then◌else◌, Bool-cases,
}
use smart_os.Block.{BlockDevice, block_read}
use smart_os.Fs.{ok, error, Fs, File}
use smart_os.Fs.Fat.{is_ok, get_next_cluster}
use smart_os.Fs.Files.{
  memcpy, cut_size, Reader, wants_more, copy_size, next_sector, take_bytes, read_loop, begin_read,
  ReadResult, finish_read, read_file,
}

advance :
    (total n size from position : ℕ)
    → total + n ≤ size
    → from + size < 2 ^ 32
    → position ≡ from + total
    → (u32 (total + n) ≡ total + n) × (u32 (position + n) ≡ from + (total + n))
advance total n size from position h small p = (omega (arith, h, small), omega (arith, h, small, p))

memcpy_behind :
    (dst : ℕ → ℕ) (to : ℕ) (src : ℕ → ℕ) (from n x : ℕ)
    → to + n ≤ x
    → memcpy dst to src from n x ≡ dst x
memcpy_behind dst to src from n x h = ground arith

farther : (total n x : ℕ) → total + n ≤ x → total ≤ x
farther total n x h = omega (arith, h)

enough :
    (size old new fuel now : ℕ) → size ≤ old + suc fuel → old < new → now ≡ new → size ≤ now + fuel
enough size old new fuel now h g e = omega (arith, h, g, e)

module _ (B : BlockDevice) where
  -- The bytes read so far, counted at the position, and the caller's buffer behind them.
  abbrev pub Inv : ℕ → ℕ → (ℕ → ℕ) → Reader B → Type 0
  Inv size from dst r =
      (r.total_read ≤ size)
      × (r.file.position ≡ from + r.total_read)
      × ((x : ℕ) → r.total_read ≤ x → r.dst x ≡ dst x)

  wants_more-lt : (size : ℕ) (r : Reader B) → wants_more B size r ≡ true → r.total_read < size
  wants_more-lt size r h = ground arith

  no_more : (size : ℕ) (r : Reader B) → size ≤ r.total_read → wants_more B size r ≡ false
  no_more size r h = ground arith

  -- A round brings at least one byte, and no more than are wanted.
  copy_size_bounds :
      (size : ℕ) (r : Reader B)
      → r.total_read < size
      → (1 ≤ copy_size B size r) × (r.total_read + copy_size B size r ≤ size)
  copy_size_bounds size r h = (ground arith, ground arith)

  take_bytes_lem :
      (size from : ℕ) (dst : ℕ → ℕ) (r : Reader B) (buffer : ℕ → ℕ)
      → Inv size from dst r
      → r.total_read < size
      → from + size < 2 ^ 32
      → Inv size from dst (take_bytes B size r buffer)
        × (r.total_read < (take_bytes B size r buffer).total_read)
  take_bytes_lem size from dst r buffer (a, p, same) more small =
      let (low, high) = copy_size_bounds size r more in
      let n : ℕ = copy_size B size r in
      let (e, q) = advance r.total_read n size from r.file.position high small p in
      (
        (
          rw e high,
          rw (e, q) refl,
          λ x h.
              memcpy_behind r.dst r.total_read buffer (r.file.position % 512) n x (rw (sym e) h)
              ∙ same x (farther r.total_read n x (rw (sym e) h)),
        ),
        rw e (omega (arith, low)),
      )

  next_sector_lem :
      (size from : ℕ) (dst : ℕ → ℕ) (r : Reader B)
      → Inv size from dst r
      → Inv size from dst (next_sector B r) × ((next_sector B r).total_read ≡ r.total_read)
  next_sector_lem size from dst r i =
      kept (leb r.fs.sectors_per_cluster (u32 (r.sector_offset + 1)))
        (record r {
          fs = (get_next_cluster B r.fs r.cluster).1;
          cluster = (get_next_cluster B r.fs r.cluster).0;
          sector_offset = 0;
        })
        (record r { sector_offset = u32 (r.sector_offset + 1) }) (i, refl) (i, refl)
    where
      kept :
          (b : Bool) (x y : Reader B)
          → Inv size from dst x × (x.total_read ≡ r.total_read)
          → Inv size from dst y × (y.total_read ≡ r.total_read)
          → Inv size from dst (if b then x else y)
            × ((if b then x else y).total_read ≡ r.total_read)
      kept true x y h k = h
      kept false x y h k = k

  -- The loop ends for want of nothing more or at the end of the chain, or it fails to read a sector.
  pub read_loop_lem :
      (size from : ℕ) (dst : ℕ → ℕ)
      → from + size < 2 ^ 32
      → (fuel : ℕ) (r : Reader B) → Inv size from dst r
      → size ≤ r.total_read + fuel
      → (r' : Reader B) × ((read_loop B fuel size r ≡ (error, r'))
          ⊎ ((read_loop B fuel size r ≡ (ok, r'))
              × Inv size from dst r'
              × (wants_more B size r' ≡ false)))
  unfolding read_loop
  read_loop_lem size from dst small zero r i h =
      (r, inr (refl, i, no_more size r (omega (arith, h))))
  read_loop_lem size from dst small (suc fuel) r i h =
      let sector : ℕ = u32 (
        r.fs.data_start_sector
        + sub_u32 r.cluster 2 * r.fs.sectors_per_cluster
        + r.sector_offset) in
      elim (Bool-cases (wants_more B size r)) [
        | inr done ↦ (r, inr (rw (read_loop, done) refl, i, done))
        | inl more ↦
            elim (Bool-cases (is_ok (block_read B r.fs.fs_device sector r.sector_buffer).0)) [
              | inr bad ↦ (r, inl (rw (read_loop, more, bad) refl))
              | inl good ↦
                  let buffer : ℕ → ℕ = (block_read B r.fs.fs_device sector r.sector_buffer).1 in
                  let taken : Reader B = take_bytes B size r buffer in
                  let (j, grows) =
                    take_bytes_lem size from dst r buffer i (wants_more-lt size r more) small in
                  let (k, same) = next_sector_lem size from dst taken j in
                  let (r', end) = read_loop_lem size from dst small fuel (next_sector B taken) k (
                    enough size r.total_read taken.total_read fuel (next_sector B taken).total_read
                      h grows same) in
                  (r', rw (read_loop, more, good) end)
            ]
      ]

  -- The loop of `read_file`, with its fuel, ended at the end of the chain.
  abbrev pub ChainEnds : Fs B → File → (ℕ → ℕ) → ℕ → (ℕ → ℕ) → Type 0
  ChainEnds s file buffer size sector_buffer =
      let n = cut_size file size in
      (read_loop B n n (begin_read B s file buffer sector_buffer)).1.cluster ≡ 0xffff

  -- What a read that succeeded has done: `n` bytes.
  abbrev pub Brought : Fs B → File → (ℕ → ℕ) → ℕ → (ℕ → ℕ) → ReadResult B → Type 0
  Brought s file buffer size sector_buffer r =
      (n : ℕ) × (r.status ≡ ok)
      × (r.bytes_read ≡ some n)
      × (n ≤ size)
      × (n ≤ file.file_size - file.position)
      × ((n ≡ cut_size file size) ⊎ ChainEnds s file buffer size sector_buffer)
      × (r.handle.position ≡ file.position + n)
      × ((x : ℕ) → n ≤ x → r.buffer x ≡ buffer x)

  left_off :
      (size : ℕ) (r : Reader B)
      → r.total_read ≤ size
      → wants_more B size r ≡ false
      → (r.total_read ≡ size) ⊎ (r.cluster ≡ 0xffff)
  left_off size r h e = ground arith

  brought :
      (s : Fs B) (file : File) (buffer : ℕ → ℕ) (size : ℕ) (sector_buffer : ℕ → ℕ) (r : Reader B)
      → let n = cut_size file size in
        let p = read_loop B n n (begin_read B s file buffer sector_buffer) in
        p ≡ (ok, r)
        → Inv n file.position buffer r
        → wants_more B n r ≡ false
        → Brought s file buffer size sector_buffer (finish_read B p)
  brought s file buffer size sector_buffer r e (a, q, same) done = (
    r.total_read,
    ap (λ t. t.0) e,
    ap (λ t. (finish_read B t).bytes_read) e,
    ground arith,
    ground arith,
    elim (left_off (cut_size file size) r a done) [
      | inl all ↦ inl all
      | inr end ↦ inr (ap (λ t. t.1.cluster) e ∙ end)
    ],
    ap (λ t. t.1.file.position) e ∙ q,
    λ x h. ap (λ t. t.1.dst x) e ∙ same x h,
  )

  -- A read with its three pointers, of a file whose size is below 2^32. It answers with an error and no number,
  -- or it succeeds and says a number of bytes, which is the size asked for, cut to what the file holds behind the
  -- position, unless the loop came to the end of the chain of clusters; so the loop does not end for want of
  -- fuel. The number is never more than the size asked for or than what the file holds behind the position; the
  -- position moves by it, and the caller's buffer behind it stays.
  pub read_file_bounds :
      (s : Fs B) (file : File) (buffer : ℕ → ℕ) (size : ℕ) (sector_buffer : ℕ → ℕ)
      → file.file_size < 2 ^ 32
      → let r = read_file B s file buffer size true sector_buffer in
        ((r.status ≡ error) × (r.bytes_read ≡ none)) ⊎ Brought s file buffer size sector_buffer r
  unfolding read_file begin_read
  read_file_bounds s file buffer size sector_buffer small =
      elim (Bool-cases (leb file.file_size file.position)) [
        | inl past ↦
            rw (read_file, past)
              (inr (
                0,
                refl,
                refl,
                omega arith,
                omega arith,
                inl (ground (arith, past)),
                omega arith,
                λ x h. refl,
              ))
        | inr within ↦
            let n : ℕ = cut_size file size in
            let start : Reader B = begin_read B s file buffer sector_buffer in
            let (r, end) =
              read_loop_lem n file.position buffer (ground arith) n start
                (omega arith, omega arith, λ x h. refl) (omega arith) in
            rw (read_file, within)
              (elim end [
                | inl e ↦ inl (ap (λ t. t.0) e, ap (λ t. (finish_read B t).bytes_read) e)
                | inr (e, i, done) ↦ inr (brought s file buffer size sector_buffer r e i done)
              ])
      ]
