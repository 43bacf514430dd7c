-- ===== src/Fs/Writing/ReadBack.antt =====
-- What a write leaves in a file whose bytes fit its first cluster, and that reading brings it back.
use smart_os.Base.{
  ℕ, ◌+◌, ◌-◌, ◌*◌, ◌/◌, ◌%◌, ◌≤◌, ◌<◌, ◌≡◌, refl, ap, ap₂, ◌∙◌, true, false, none, some, u16,
  arith, ◌==◌, ltb, if◌then◌else◌,
}
use native.Mathlib.Nat.{div-eq_of_lt}
use smart_os.Block.{BlockDevice, IsLawful}
use smart_os.Fs.{ok, full, Fs, File}
use smart_os.Fs.Files.{cut_size, read_file}
use smart_os.Fs.Files.Brought.{read_file-content}
use smart_os.Fs.Files.Content.{first_sector, content, Placed}
use smart_os.Fs.Writing.Cluster.{Left, write_loop-Left}
use smart_os.Fs.Writing.{
  Writer, WriteResult, failed, cluster_bytes, write_loop, finish_write, append, write_file,
  seek_end,
}

module _ (B : BlockDevice) (L : IsLawful B) where
  open L use {byte}

  -- The writer where the loop begins, for a file whose end lies in its first cluster.
  abbrev pub beginning : Fs B → File → (ℕ → ℕ) → Writer B
  beginning s file sector_buffer = record {
    fs = s;
    file = file;
    total_written = 0;
    cluster = file.first_cluster;
    sector_buffer = sector_buffer;
  }

  append-beginning :
      (s : Fs B) (file : File) (src : ℕ → ℕ) (size : ℕ) (sector_buffer : ℕ → ℕ)
      → file.file_size / cluster_bytes B s ≡ 0
      → u16 file.first_cluster ≡ file.first_cluster
      → append B s file src size sector_buffer
        ≡ finish_write B (write_loop B size size src (beginning s file sector_buffer))
  unfolding append seek_end
  append-beginning s file src size sector_buffer e c =
      let run : ℕ → ℕ → WriteResult B = λ n first.
        let (end, s') = seek_end B n s first in
        elim end as (λ o. WriteResult B) [
          | none ↦ failed B full s' file
          | some cluster ↦ finish_write B (
              write_loop B size size src
                (record (beginning s' file sector_buffer) { cluster = cluster }))
        ] in
      ap₂ run e c

  pub write_file-Left :
      (s : Fs B) (d : B.Dev) (file : File) (src : ℕ → ℕ) (size : ℕ) (sector_buffer : ℕ → ℕ)
      → Placed B L s d file.first_cluster
      → file.file_size + size ≤ s.sectors_per_cluster * 512
      → file.file_size < s.sectors_per_cluster * 512
      → (w' : Writer B) × (d' : B.Dev) × (write_file B s file src size true sector_buffer
          ≡ finish_write B (ok, w'))
        × Left B L size file.file_size src (beginning s file sector_buffer) d w' d'
  unfolding write_file
  write_file-Left s d file src size sector_buffer P fits open' =
      let (_, low, high, word, _, _) = P in
      let cb : cluster_bytes B s ≡ s.sectors_per_cluster * 512 = omega (arith, word) in
      let none_before : file.file_size / cluster_bytes B s ≡ 0 = rw cb (div-eq_of_lt open') in
      let c : u16 file.first_cluster ≡ file.first_cluster = omega (arith, high) in
      let some_cluster : (file.first_cluster == 0) ≡ false = ground (arith, low) in
      let start : Writer B = beginning s file sector_buffer in
      let (w', d', end, left) =
        write_loop-Left B L size size file.file_size src start d (P, fits, omega arith)
          (omega arith) (omega arith) in
      let run : append B s file src size sector_buffer ≡ finish_write B (ok, w') =
        append-beginning s file src size sector_buffer none_before c ∙ ap (finish_write B) end in
      (w', d', rw (write_file, some_cluster) run, left)

  content_same :
      (s t : Fs B) (d : B.Dev) (c c' x : ℕ)
      → c' ≡ c
      → t.data_start_sector ≡ s.data_start_sector
      → t.sectors_per_cluster ≡ s.sectors_per_cluster
      → content B L t d c' x ≡ content B L s d c x
  content_same s t d c c' x first p q =
      let e : first_sector B L t c' ≡ first_sector B L s c = rw (first, p, q) refl in
      ap (λ k. byte d (k + x / 512) (x % 512)) e

  -- On a device that keeps its promises, for a file whose first cluster lies on it, has room behind the
  -- file's bytes, and holds the new ones too: the write succeeds and reports all its bytes. Reading the
  -- file from any position within it, with the handle that the write left, then succeeds and brings the old
  -- bytes followed by the new, as many as are asked for and the file holds.
  pub read_file-write_file :
      (s : Fs B) (d : B.Dev) (file : File) (src : ℕ → ℕ) (size : ℕ) (sector_buffer : ℕ → ℕ) (at : ℕ)
      (buffer : ℕ → ℕ) (wanted : ℕ) (sector_buffer' : ℕ → ℕ)
      → Placed B L s d file.first_cluster
      → file.file_size + size ≤ s.sectors_per_cluster * 512
      → file.file_size < s.sectors_per_cluster * 512
      → at ≤ file.file_size + size
      → let w = write_file B s file src size true sector_buffer in
        let after = record w.handle { position = at } in
        let n = cut_size after wanted in
        let r = read_file B w.state after buffer wanted true sector_buffer' in
        (w.status ≡ ok)
        × (w.bytes_written ≡ some size)
        × (w.handle.file_size ≡ file.file_size + size)
        × (r.status ≡ ok)
        × (r.bytes_read ≡ some n)
        × ((x : ℕ)
            → x < n
            → r.buffer x ≡ (
                if ltb (at + x) file.file_size
                then content B L s d file.first_cluster (at + x)
                else src (at + x - file.file_size)))
  read_file-write_file s d file src size sector_buffer at buffer wanted sector_buffer' P fits open'
        within =
      let (w', d', end, (a, p, q, k, total, fsize, first, changed)) =
        write_file-Left s d file src size sector_buffer P fits open' in
      let after : File = record w'.file { position = at } in
      let P' : Placed B L w'.fs d' w'.file.first_cluster =
        let (_, low, high, word, on, sz) = P in
        (a, rw first low, rw first high, rw q word, rw (first, p, q, k) on, rw k sz) in
      let (good, count, _, bytes, _) =
        read_file-content B L w'.fs d' after buffer wanted sector_buffer' P' (rw (fsize, q) fits)
          (rw fsize within) in
      rw end (
        refl,
        ap some total,
        fsize,
        good,
        count,
        λ x h.
            let inside : at + x < file.file_size + size = ground (arith, h, fsize) in
            let moved : content B L w'.fs d' w'.file.first_cluster (at + x)
                ≡ content B L s d' file.first_cluster (at + x) =
              content_same s w'.fs d' file.first_cluster w'.file.first_cluster (at + x) first p q in
            bytes x h
            ∙ moved
            ∙ changed (at + x) (omega (arith, inside, fits))
            ∙ ground (
              arith,
              inside,
              ap src {x = 0 + (at + x - file.file_size)} {y = at + x - file.file_size},
            ),
      )
