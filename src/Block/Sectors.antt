-- ===== src/Block/Sectors.antt =====
-- The storage keeps its sectors apart, and a range check that wraps.
use smart_os.Base.{
  ℕ, zero, suc, ◌+◌, ◌-◌, ◌*◌, ◌^◌, ◌≤◌, ◌<◌, ◌≡◌, refl, ap, ◌∙◌, Bool, true, not, ◌&&◌, none, some,
  Ptr, u32, ltb, leb, ◌==◌, if◌then◌else◌, arith,
}
use smart_os.Base.Chain.{update}
use smart_os.Block.{
  ok, Flash, copy_bytes, refusal, flash_read, flash_write, IsLawful, flash_device, some_or,
}

-- The storage is set up: its sectors fill it, and it lies within the address space.
abbrev pub is_usable : Flash → Bool
is_usable f =
    f.initialized
    && not (f.flash_base == 0)
    && f.flash_size == 512 * f.total_sectors
    && leb (f.flash_base + f.flash_size) (2 ^ 32 - 1)

abbrev pub sectors : Flash → ℕ
sectors f = if is_usable f then f.total_sectors else 0

abbrev pub byte : Flash → ℕ → ℕ → ℕ
byte f k i = f.mem (f.flash_base + k * 512 + i)

copy_bytes_lem :
    (n i : ℕ) (source : Ptr → ℕ) (src : Ptr) (target : Ptr → ℕ) (dst q : Ptr)
    → copy_bytes n i source src target dst q
      ≡ (if leb (dst + i) q && ltb q (dst + i + n) then source (src + (q - dst)) else target q)
unfolding copy_bytes
copy_bytes_lem zero i source src target dst q = ground arith
copy_bytes_lem (suc n) i source src target dst q =
    copy_bytes_lem n (i + 1) source src (update target (dst + i) (source (src + i))) dst q
    ∙ ground (arith, ap source {x = src + i} {y = src + (q - dst)})

accepted : (f : Flash) (k : ℕ) → k < sectors f → refusal f k true 1 ≡ none
unfolding refusal
accepted f k h = ground arith

place :
    (f : Flash) (k : ℕ)
    → k < sectors f
    → u32 (f.flash_base + u32 (k * 512)) ≡ f.flash_base + k * 512
place f k h = ground arith

flash_read_lem :
    (f : Flash) (k : ℕ) (buffer : ℕ → ℕ)
    → k < sectors f
    → (b : ℕ → ℕ) × (flash_read f k (some buffer) 1 ≡ (ok, some b))
      × ((i : ℕ) → b i ≡ (if ltb i 512 then byte f k i else buffer i))
unfolding flash_read
flash_read_lem f k buffer h = (
  copy_bytes (u32 (1 * 512)) 0 f.mem (u32 (f.flash_base + u32 (k * 512))) buffer 0,
  rw (flash_read, accepted f k h) refl,
  λ i.
      copy_bytes_lem 512 0 f.mem (u32 (f.flash_base + u32 (k * 512))) buffer 0 i
      ∙ ground (
        arith,
        ap f.mem {x = u32 (f.flash_base + u32 (k * 512)) + (i - 0)}
            {y = f.flash_base + k * 512 + i},
      ),
)

flash_write_lem :
    (f : Flash) (k : ℕ) (buffer : ℕ → ℕ)
    → k < sectors f
    → (f' : Flash) × (flash_write f k (some buffer) 1 ≡ (ok, f'))
      × (sectors f' ≡ sectors f)
      × ((j i : ℕ) → i < 512 → byte f' j i ≡ (if j == k then buffer i else byte f j i))
unfolding flash_write
flash_write_lem f k buffer h = (
  record f {
    mem = copy_bytes (u32 (1 * 512)) 0 buffer 0 f.mem (u32 (f.flash_base + u32 (k * 512)));
  },
  rw (flash_write, accepted f k h) refl,
  refl,
  λ j i l.
      copy_bytes_lem 512 0 buffer 0 f.mem (u32 (f.flash_base + u32 (k * 512)))
        (f.flash_base + j * 512 + i)
      ∙ ground (
        arith,
        place f k h,
        ap buffer {x = 0 + (f.flash_base + j * 512 + i - u32 (f.flash_base + u32 (k * 512)))}
            {y = i},
      ),
)

sectors-flash_write :
    (f : Flash) (k : ℕ) (buffer : ℕ → ℕ) → sectors (flash_write f k (some buffer) 1).1 ≡ sectors f
unfolding flash_write
sectors-flash_write f k buffer = ground arith

passed : (f : Flash) → is_usable f ≡ true → refusal f 0xffff_ffff true 1 ≡ none
unfolding refusal
passed f u = ground arith

below :
    (f : Flash)
    → is_usable f ≡ true
    → 512 ≤ f.flash_base
    → u32 (f.flash_base + u32 (0xffff_ffff * 512)) ≡ f.flash_base - 512
below f u low = ground arith

flash_law : IsLawful flash_device
unfolding flash_device
flash_law = record {
  sectors = sectors;
  byte = byte;
  read_ok = λ d k buffer h. ap (λ r. r.0) (flash_read_lem d k buffer h).1;
  read_byte = λ d k buffer i h.
      let (b, e, at) = flash_read_lem d k buffer h in ap (λ r. some_or r.1 buffer i) e ∙ at i;
  write_ok = λ d k buffer h. ap (λ r. r.0) (flash_write_lem d k buffer h).1;
  write_byte = λ d k buffer j i h l.
      let (f, e, _, at) = flash_write_lem d k buffer h in ap (λ r. byte r.1 j i) e ∙ at j i l;
  write_sectors = sectors-flash_write;
}

-- Reading and writing one sector of the storage keep what a block device promises, where the sectors are all
-- those of a storage that is set up, and byte `i` of sector `k` is the one in memory at the storage's address
-- plus `512 * k + i`: both succeed, a read brings the sector's 512 bytes and leaves the buffer behind them,
-- and a write changes the bytes of its own sector only and keeps the number of sectors.
pub flash_device-IsLawful :
    (L : IsLawful flash_device) × (unfold flash_device in
      (((f : Flash)
          → L.sectors f ≡ (
              if f.initialized
                && not (f.flash_base == 0)
                && f.flash_size == 512 * f.total_sectors
                && leb (f.flash_base + f.flash_size) (2 ^ 32 - 1)
              then f.total_sectors
              else 0))
        × ((f : Flash) (k i : ℕ) → L.byte f k i ≡ f.mem (f.flash_base + k * 512 + i))))
unfolding flash_device flash_law
flash_device-IsLawful = (flash_law, (λ f. refl, λ f k i. refl))

-- The range check of a write wraps: on a storage that does not begin within the first 512 bytes of
-- memory, a write of sector `0xFFFFFFFF` succeeds, and puts the buffer into the 512 bytes below it.
pub flash_write_wraps :
    (f : Flash) (buffer : ℕ → ℕ)
    → is_usable f ≡ true
    → 512 ≤ f.flash_base
    → (f' : Flash) × (flash_write f 0xffff_ffff (some buffer) 1 ≡ (ok, f'))
      × ((i : ℕ) → i < 512 → f'.mem (f.flash_base - 512 + i) ≡ buffer i)
unfolding flash_write
flash_write_wraps f buffer u low = (
  record f {
    mem =
        copy_bytes (u32 (1 * 512)) 0 buffer 0 f.mem (u32 (f.flash_base + u32 (0xffff_ffff * 512)));
  },
  rw (flash_write, passed f u) refl,
  λ i l.
      copy_bytes_lem 512 0 buffer 0 f.mem (u32 (f.flash_base + u32 (0xffff_ffff * 512)))
        (f.flash_base - 512 + i)
      ∙ ground (
        arith,
        below f u low,
        ap buffer {x = 0 + (f.flash_base - 512 + i - u32 (f.flash_base + u32 (0xffff_ffff * 512)))}
            {y = i},
      ),
)
