-- ===== src/Fs/Writing/NewFile.antt =====
-- Writing to a file that has no cluster yet.
use smart_os.Base.{
  ℕ, ◌+◌, ◌-◌, ◌*◌, ◌≤◌, ◌<◌, ◌≡◌, ◌≢◌, refl, ap, ◌∙◌, subst, true, false, some, arith, ◌==◌,
}
use smart_os.Block.{BlockDevice, IsLawful}
use smart_os.Fs.{ok, Fs, File}
use smart_os.Fs.Fat.{read_fat_entry, allocate_cluster}
use smart_os.Fs.Fat.Seam.{Reachable}
use smart_os.Fs.Fat.Allocation.{allocate_cluster_lem, Moved, allocate_cluster-Moved}
use smart_os.Fs.Files.{cut_size, read_file}
use smart_os.Fs.Files.Content.{Placed}
use smart_os.Fs.Writing.{write_file}
use smart_os.Fs.Writing.ReadBack.{write_file-Left, read_file-write_file}

module _ (B : BlockDevice) (L : IsLawful B) where
  open L use {sectors}

  -- Once a cluster is found, the write goes on as one to a file with that cluster.
  write_file-allocate_cluster :
      (s s₁ : Fs B) (file : File) (src : ℕ → ℕ) (size : ℕ) (sector_buffer : ℕ → ℕ) (k : ℕ)
      → file.first_cluster ≡ 0
      → allocate_cluster B s ≡ (k, s₁)
      → k ≢ 0
      → write_file B s file src size true sector_buffer
        ≡ write_file B s₁
            (record file { first_cluster = k; current_cluster = k })
            src
            size
            true
            sector_buffer
  unfolding write_file
  write_file-allocate_cluster s s₁ file src size sector_buffer k none_yet found ne =
      let a : (file.first_cluster == 0) ≡ true = ground (arith, none_yet) in
      let b : (k == 0) ≡ false = ground (arith, ne) in rw (write_file, a, found, b) refl

  -- The first free cluster `k` of a device that keeps its promises, with the entries up to it in reach and its
  -- sectors on the device, and an empty file without a cluster: a write of at least one byte and at most a cluster
  -- succeeds with all its bytes and gives the file that cluster, and reading the file from any position within it
  -- then succeeds and brings the bytes written, as many as are asked for and the file holds.
  pub read_file-write_file_new :
      (s : Fs B) (d : B.Dev) (file : File) (src : ℕ → ℕ) (size : ℕ) (sector_buffer : ℕ → ℕ) (k : ℕ)
      (at : ℕ) (buffer : ℕ → ℕ) (wanted : ℕ) (sector_buffer' : ℕ → ℕ)
      → s.fs_device ≡ some d
      → file.first_cluster ≡ 0
      → file.file_size ≡ 0
      → 1 ≤ size
      → size ≤ s.sectors_per_cluster * 512
      → 2 ≤ k
      → k < 0xff0
      → ((x : ℕ) → 2 ≤ x → x ≤ k → Reachable B L s d x)
      → ((x : ℕ) → 2 ≤ x → x < k → (read_fat_entry B s x).0 ≢ 0)
      → (read_fat_entry B s k).0 ≡ 0
      → Placed B L s d k
      → at ≤ size
      → let w = write_file B s file src size true sector_buffer in
        let after = record w.handle { position = at } in
        let n = cut_size after wanted in
        let r = read_file B w.state after buffer wanted true sector_buffer' in
        (w.status ≡ ok)
        × (w.bytes_written ≡ some size)
        × (w.handle.first_cluster ≡ k)
        × (w.handle.file_size ≡ size)
        × (r.status ≡ ok)
        × (r.bytes_read ≡ some n)
        × ((x : ℕ) → x < n → r.buffer x ≡ src (at + x))
  read_file-write_file_new s d file src size sector_buffer k at buffer wanted sector_buffer' dev
        none_yet empty some_byte fits low high reach taken free P within =
      let (s₁, found, _) = allocate_cluster_lem B L s d k low high reach taken free in
      let (d₁, dev₁, size₁, start, spc) : Moved B L s d s₁ =
        subst (Moved B L s d) (ap (λ r. r.1) found)
          (allocate_cluster-Moved B L s d k low high reach taken free) in
      let fresh : File = record file { first_cluster = k; current_cluster = k } in
      let (_, _, c, word, on, most) = P in
      let P₁ : Placed B L s₁ d₁ k =
        (dev₁, low, c, rw spc word, rw (start, spc, size₁) on, rw size₁ most) in
      let room : file.file_size + size ≤ s₁.sectors_per_cluster * 512 =
        rw (empty, spc) (omega (arith, fits)) in
      let open' : file.file_size < s₁.sectors_per_cluster * 512 =
        rw (empty, spc) (omega (arith, fits, some_byte)) in
      let (w', _, run, (_, _, _, _, _, _, first, _)) =
        write_file-Left B L s₁ d₁ fresh src size sector_buffer P₁ room open' in
      let (good, all, total, read, count, bytes) =
        read_file-write_file B L s₁ d₁ fresh src size sector_buffer at buffer wanted sector_buffer'
          P₁ room open' (omega (arith, empty, within)) in
      let e =
        write_file-allocate_cluster s s₁ file src size sector_buffer k none_yet found
          (omega (arith, low)) in
      rw e (
        good,
        all,
        ap (λ w. w.handle.first_cluster) run ∙ first,
        total ∙ omega (arith, empty),
        read,
        count,
        λ x h. bytes x h ∙ ground (arith, empty, ap src {x = at + x - file.file_size} {y = at + x}),
      )
