-- ===== src/Fs/Files/Content.antt =====
-- What a file holds whose bytes lie in its first cluster.
use smart_os.Base.{
  ℕ, ◌+◌, ◌-◌, ◌*◌, ◌/◌, ◌%◌, ◌^◌, ◌≤◌, ◌<◌, ◌≡◌, ap, ◌∙◌, true, some, u32, sub_u32, arith,
}
use smart_os.Block.{BlockDevice, IsLawful, block_read}
use smart_os.Fs.{Fs}
use smart_os.Fs.Fat.{is_ok}

module _ (B : BlockDevice) (L : IsLawful B) where
  open L use {sectors, byte, read_ok, read_byte}

  abbrev pub first_sector : Fs B → ℕ → ℕ
  first_sector s c = s.data_start_sector + (c - 2) * s.sectors_per_cluster

  -- The byte at offset `x` of a cluster.
  abbrev pub content : Fs B → B.Dev → ℕ → ℕ → ℕ
  content s d c x = byte d (first_sector s c + x / 512) (x % 512)

  -- The cluster's sectors lie on the device, and its size fits a word.
  abbrev pub Placed : Fs B → B.Dev → ℕ → Type 0
  Placed s d c =
      (s.fs_device ≡ some d)
      × (2 ≤ c)
      × (c < 0xffff)
      × (s.sectors_per_cluster * 512 < 2 ^ 32)
      × (first_sector s c + s.sectors_per_cluster ≤ sectors d)
      × (sectors d ≤ 2 ^ 32)

  pub sector_at :
      (s : Fs B) (d : B.Dev) (c k : ℕ)
      → Placed s d c
      → k < s.sectors_per_cluster
      → (u32 (s.data_start_sector + sub_u32 c 2 * s.sectors_per_cluster + k) ≡ first_sector s c + k)
        × (first_sector s c + k < sectors d)
  sector_at s d c k (_, low, high, _, fits, size) h =
      let e : sub_u32 c 2 ≡ c - 2 = omega (arith, low, high) in
      (rw e (omega (arith, fits, size, h)), omega (arith, fits, h))

  pub read_at :
      (s : Fs B) (d : B.Dev) (c k : ℕ) (buffer : ℕ → ℕ)
      → Placed s d c
      → k < s.sectors_per_cluster
      → let sector = u32 (s.data_start_sector + sub_u32 c 2 * s.sectors_per_cluster + k) in
        let (status, loaded) = block_read B s.fs_device sector buffer in
        (is_ok status ≡ true) × ((i : ℕ) → i < 512 → loaded i ≡ byte d (first_sector s c + k) i)
  unfolding block_read
  read_at s d c k buffer P h =
      let (e, within) = sector_at s d c k P h in
      rw (e, P.0)
        (
          ap is_ok (read_ok d (first_sector s c + k) buffer within),
          λ i l. read_byte d (first_sector s c + k) buffer i within ∙ ground (arith, l),
        )
