-- ===== src/Fs/Fat/Allocation.antt =====
-- The cluster that `allocate_cluster` chooses.
use smart_os.Base.{
  ℕ, zero, suc, ◌+◌, ◌≤◌, ◌<◌, ◌≡◌, ◌≢◌, some, refl, sym, ap, ◌∙◌, false, ◌==◌, arith, Bool-cases,
  inl, inr,
}
use smart_os.Block.{BlockDevice, IsLawful, block_read}
use smart_os.Fs.{Fs}
use smart_os.Fs.Fat.{
  is_ok, fat_sector, read_fat_entry, write_fat_entry, allocate_from, allocate_cluster,
}
use smart_os.Fs.Fat.Entries.{read_fat_entry_lem, write_fat_entry_lem, write_fat_entry_keeps}
use smart_os.Fs.Fat.Seam.{Reachable, Apart, read_fat_entry-write_fat_entry}

module _ (B : BlockDevice) (L : IsLawful B) where
  open L use {sectors}

  -- The state behind a look at an entry.
  abbrev looked : Fs B → ℕ → Fs B
  looked s c = record s { fat_cache = (block_read B s.fs_device (fat_sector B s c) s.fat_cache).1 }

  looked_lem : (s : Fs B) (c : ℕ) → (read_fat_entry B s c).1 ≡ looked s c
  unfolding read_fat_entry
  looked_lem s c =
      elim (Bool-cases (is_ok (block_read B s.fs_device (fat_sector B s c) s.fat_cache).0)) [
        | inl good ↦ rw (read_fat_entry, good) refl
        | inr bad ↦ rw (read_fat_entry, bad) refl
      ]

  -- A look changes no entry.
  read-looked :
      (s : Fs B) (d : B.Dev) (c x : ℕ)
      → Reachable B L s d x
      → (read_fat_entry B (looked s c) x).0 ≡ (read_fat_entry B s x).0
  read-looked s d c x (e, _, h, _, n) =
      read_fat_entry_lem B L (looked s c) d x e h n ∙ sym (read_fat_entry_lem B L s d x e h n)

  chosen :
      (n : ℕ) (s : Fs B) (c : ℕ)
      → (read_fat_entry B s c).0 ≡ 0
      → allocate_from B (suc n) s c ≡ (c, (write_fat_entry B (looked s c) c 0xfff).1)
  unfolding allocate_from
  chosen n s c e = rw (allocate_from, e, looked_lem s c) refl

  passed :
      (n : ℕ) (s : Fs B) (c : ℕ)
      → (read_fat_entry B s c).0 ≢ 0
      → allocate_from B (suc n) s c ≡ allocate_from B n (looked s c) (c + 1)
  unfolding allocate_from
  passed n s c h =
      let z : ((read_fat_entry B s c).0 == 0) ≡ false = ground (arith, h) in
      rw (allocate_from, z, looked_lem s c) refl

  -- What a search from `c` leaves when it comes to `k`.
  abbrev pub Allocated : Fs B → B.Dev → ℕ → Fs B → Type 0
  Allocated s d k s' =
      ((read_fat_entry B s' k).0 ≡ 0xfff)
      × ((x : ℕ)
          → Reachable B L s d x
          → Apart B L s k x
          → (read_fat_entry B s' x).0 ≡ (read_fat_entry B s x).0)

  here-Allocated :
      (n : ℕ) (s : Fs B) (d : B.Dev) (c : ℕ)
      → Reachable B L s d c
      → (read_fat_entry B s c).0 ≡ 0
      → (s' : Fs B) × (allocate_from B (suc n) s c ≡ (c, s')) × Allocated s d c s'
  here-Allocated n s d c reach free =
      let (s', w, value, others) =
        read_fat_entry-write_fat_entry B L (looked s c) d c 0xfff reach in
      (
        s',
        chosen n s c free ∙ ap (λ r. (c, r.1)) w,
        (value, λ x r a. others x r a ∙ read-looked s d c x r),
      )

  allocate_from-Allocated :
      (n : ℕ) (s : Fs B) (d : B.Dev) (c k : ℕ)
      → c ≤ k
      → k < c + n
      → ((x : ℕ) → c ≤ x → x ≤ k → Reachable B L s d x)
      → ((x : ℕ) → c ≤ x → x < k → (read_fat_entry B s x).0 ≢ 0)
      → (read_fat_entry B s k).0 ≡ 0
      → (s' : Fs B) × (allocate_from B n s c ≡ (k, s')) × Allocated s d k s'
  allocate_from-Allocated zero s d c k low high reach taken free = absurd (omega (arith, low, high))
  allocate_from-Allocated (suc n) s d c k low high reach taken free = elim (Bool-cases (c == k)) [
    | inl here ↦
        let e : k ≡ c = ground (arith, here) in
        rw e (
          here-Allocated n s d c (reach c (omega arith) low)
            (ap (λ x. (read_fat_entry B s x).0) (sym e) ∙ free))
    | inr before ↦
        let less : c < k = ground (arith, before, low) in
        let (s', found, (value, others)) =
          allocate_from-Allocated n (looked s c) d (c + 1) k (omega (arith, less))
            (omega (arith, high)) (λ x a b. reach x (omega (arith, a)) b)
            (λ x a b e.
              taken x (omega (arith, a)) b
                (sym (read-looked s d c x (reach x (omega (arith, a)) (omega (arith, b)))) ∙ e))
            (read-looked s d c k (reach k low (omega arith)) ∙ free) in
        (
          s',
          passed n s c (taken c (omega arith) less) ∙ found,
          (value, λ x r a. others x r a ∙ read-looked s d c x r),
        )
  ]

  -- The first cluster from 2 on whose entry reads 0, where the entries up to it are in reach: it is the one that
  -- `allocate_cluster` returns. Its entry then reads as the end of a chain, and every other entry in reach outside
  -- the next sector of the table as before.
  pub allocate_cluster_lem :
      (s : Fs B) (d : B.Dev) (k : ℕ)
      → 2 ≤ k
      → k < 0xff0
      → ((x : ℕ) → 2 ≤ x → x ≤ k → Reachable B L s d x)
      → ((x : ℕ) → 2 ≤ x → x < k → (read_fat_entry B s x).0 ≢ 0)
      → (read_fat_entry B s k).0 ≡ 0
      → (s' : Fs B) × (allocate_cluster B s ≡ (k, s')) × Allocated s d k s'
  unfolding allocate_cluster
  allocate_cluster_lem s d k low high reach taken free =
      allocate_from-Allocated 0xfee s d 2 k low (omega (arith, high)) reach taken free

  -- The state that the search leaves has the same layout, on a device with as many sectors.
  abbrev pub Moved : Fs B → B.Dev → Fs B → Type 0
  Moved s d s' =
      (d' : B.Dev) × (s'.fs_device ≡ some d')
      × (sectors d' ≡ sectors d)
      × (s'.data_start_sector ≡ s.data_start_sector)
      × (s'.sectors_per_cluster ≡ s.sectors_per_cluster)

  allocate_from-Moved :
      (n : ℕ) (s : Fs B) (d : B.Dev) (c k : ℕ)
      → c ≤ k
      → k < c + n
      → ((x : ℕ) → c ≤ x → x ≤ k → Reachable B L s d x)
      → ((x : ℕ) → c ≤ x → x < k → (read_fat_entry B s x).0 ≢ 0)
      → (read_fat_entry B s k).0 ≡ 0
      → Moved s d (allocate_from B n s c).1
  allocate_from-Moved zero s d c k low high reach taken free = absurd (omega (arith, low, high))
  allocate_from-Moved (suc n) s d c k low high reach taken free = elim (Bool-cases (c == k)) [
    | inl here ↦
        let e : k ≡ c = ground (arith, here) in
        let (dev, _, at, next, _) = reach c (omega arith) low in
        let (s', d', w, e', _, size, _) =
          write_fat_entry_lem B L (looked s c) d c 0xfff dev at next in
        let (start, spc) = write_fat_entry_keeps B (looked s c) c 0xfff in
        rw (chosen n s c (ap (λ x. (read_fat_entry B s x).0) (sym e) ∙ free))
          (d', ap (λ r. r.1.fs_device) w ∙ e', size, start, spc)
    | inr before ↦
        let less : c < k = ground (arith, before, low) in
        rw (passed n s c (taken c (omega arith) less)) (
          allocate_from-Moved n (looked s c) d (c + 1) k (omega (arith, less)) (omega (arith, high))
            (λ x a b. reach x (omega (arith, a)) b)
            (λ x a b e.
              taken x (omega (arith, a)) b
                (sym (read-looked s d c x (reach x (omega (arith, a)) (omega (arith, b)))) ∙ e))
            (read-looked s d c k (reach k low (omega arith)) ∙ free))
  ]

  pub allocate_cluster-Moved :
      (s : Fs B) (d : B.Dev) (k : ℕ)
      → 2 ≤ k
      → k < 0xff0
      → ((x : ℕ) → 2 ≤ x → x ≤ k → Reachable B L s d x)
      → ((x : ℕ) → 2 ≤ x → x < k → (read_fat_entry B s x).0 ≢ 0)
      → (read_fat_entry B s k).0 ≡ 0
      → Moved s d (allocate_cluster B s).1
  unfolding allocate_cluster
  allocate_cluster-Moved s d k low high reach taken free =
      allocate_from-Moved 0xfee s d 2 k low (omega (arith, high)) reach taken free
