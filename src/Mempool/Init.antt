-- ===== src/Mempool/Init.antt =====
-- `smart_mempool_init` cuts the buffer into blocks and strings them all on the free list.
use smart_os.Base.{
  ℕ, zero, suc, ◌+◌, ◌*◌, ◌%◌, ◌^◌, ◌≤◌, ◌<◌, ◌≡◌, ◌≢◌, refl, false, List, [], ◌∷◌, Ptr, null, u32,
  arith, length, ltb, ◌==◌, if◌then◌else◌, ap, ◌∙◌,
}
use smart_os.Base.Chain.{has, update, Chain, Distinct}
use smart_os.Mempool.{Store, align_up, register, link_blocks, fresh, init}
use smart_os.Mempool.Inv.{IsFree}

-- The addresses of `n` blocks from `p` on.
unfoldable pub blocks : ℕ → ℕ → Ptr → List Ptr
blocks zero stride p = []
blocks (suc n) stride p = p ∷ blocks n stride (p + stride)

length-blocks : (n stride p : ℕ) → length (blocks n stride p) ≡ n
unfolding blocks
length-blocks zero stride p = refl
length-blocks (suc n) stride p = ap suc (length-blocks n stride (p + stride))

has-blocks : (n stride p a : ℕ) → a < p → has a (blocks n stride p) ≡ false
unfolding blocks
has-blocks zero stride p a h = refl
has-blocks (suc n) stride p a h = ground (arith, has-blocks n stride (p + stride) a)

blocks-Distinct : (n stride p : ℕ) → 0 < stride → Distinct (blocks n stride p)
unfolding blocks
blocks-Distinct zero stride p h = tt
blocks-Distinct (suc n) stride p h =
    (has-blocks n stride (p + stride) p (omega arith), blocks-Distinct n stride (p + stride) h)

-- The loop from index `i` writes nowhere below the block of index `i`.
link_blocks_below :
    (n i b st c a : ℕ) (mem : Ptr → Ptr)
    → b + (i + n) * st < 2 ^ 32
    → a < b + i * st
    → link_blocks n i b st c mem a ≡ mem a
unfolding link_blocks
link_blocks_below zero i b st c a mem h l = refl
link_blocks_below (suc n) i b st c a mem h l =
    link_blocks_below n (i + 1) b st c a _ (omega arith) (omega arith) ∙ ground (arith, place)
  where
    place : (b + i * st) % 2 ^ 32 ≡ b + i * st
    place = omega arith

link_blocks-Chain :
    (n i b st c p : ℕ) (mem : Ptr → Ptr)
    → 0 < b
    → 0 < st
    → i + suc n ≡ c
    → b + c * st < 2 ^ 32
    → p ≡ b + i * st
    → Chain (link_blocks (suc n) i b st c mem) p (blocks (suc n) st p)
unfolding link_blocks blocks
link_blocks-Chain zero i b st c p mem hb hs e h ep =
    (refl, (λ z. omega arith), ground (arith, place))
  where
    last : i + 1 ≡ c
    last = omega arith

    scaled : (i + 1) * st ≡ c * st
    scaled = ap (λ t. t * st) last

    place : (b + i * st) % 2 ^ 32 ≡ p
    place = omega (arith, scaled)
link_blocks-Chain (suc n) i b st c p mem hb hs e h ep = (
  refl,
  (λ z. omega arith),
  rw link (link_blocks-Chain n (i + 1) b st c (p + st) mem' hb hs (omega arith) h (omega arith)),
)
  where
    room : b + (i + 1 + suc n) * st < 2 ^ 32
    room = omega (arith, ap (λ (t : ℕ). t * st) e)

    place : (b + i * st) % 2 ^ 32 ≡ p
    place = omega (arith, room)

    beyond : (p + st) % 2 ^ 32 ≡ p + st
    beyond = omega (arith, room)

    mem' : Ptr → Ptr
    mem' =
        update mem (u32 (b + i * st)) (if ltb (i + 1) c then u32 (u32 (b + i * st) + st) else null)

    written : mem' p ≡ p + st
    written = ground (arith, place, beyond)

    link : link_blocks (suc n) (i + 1) b st c mem' p ≡ p + st
    link = link_blocks_below (suc n) (i + 1) b st c p mem' room (omega arith) ∙ written

-- What a caller of `smart_mempool_init` has to provide: a pool, a buffer that does not wrap round the
-- address space, and a number of blocks that fits the counters.
pub record Fits (pool buffer : Ptr) (size count : ℕ) : Type 0 where
  pub pool_ne : pool ≢ null
  pub buffer_pos : 0 < buffer
  pub size_pos : 0 < size
  pub count_pos : 0 < count
  pub size_small : size + 3 < 2 ^ 32
  pub count_small : count < 2 ^ 16
  pub no_wrap : buffer + count * align_up size 4 < 2 ^ 32

-- `align_up` to 4 bytes is the least multiple of 4 that is not below the size.
pub align_up_lem :
    (n : ℕ) → n + 3 < 2 ^ 32 → (n ≤ align_up n 4) × (align_up n 4 < n + 4) × (align_up n 4 % 4 ≡ 0)
unfolding align_up
align_up_lem n h = omega arith

init_writes :
    (s : Store) (pool buffer : Ptr) (size count ops : ℕ)
    → Fits pool buffer size count
    → ((init s pool buffer size count ops).mem
        ≡ link_blocks count 0 buffer (align_up size 4) count s.mem)
      × ((init s pool buffer size count ops).pools pool ≡ fresh buffer size count ops)
unfolding init register
init_writes s pool buffer size count ops v =
    ground (arith, v.pool_ne, v.buffer_pos, v.size_pos, v.count_pos)

all_linked :
    (mem : Ptr → Ptr) (count stride buffer : ℕ)
    → 0 < count
    → 0 < buffer
    → 0 < stride
    → buffer + count * stride < 2 ^ 32
    → Chain (link_blocks count 0 buffer stride count mem) buffer (blocks count stride buffer)
all_linked mem zero stride buffer h b t w = absurd (omega arith)
all_linked mem (suc n) stride buffer h b t w =
    link_blocks-Chain n 0 buffer stride (suc n) buffer mem b t (omega arith) w (omega arith)

-- After `smart_mempool_init` every block of the buffer is free, in order of address and each at a
-- multiple of the stride, the counters are right, and the budget is the given one (or a block count's
-- worth if none is given).
pub init-IsFree :
    (s : Store) (pool buffer : Ptr) (size count ops : ℕ)
    → Fits pool buffer size count
    → let s' = init s pool buffer size count ops in
      IsFree s' pool (blocks count (align_up size 4) buffer)
      × ((s'.pools pool).block_count ≡ count)
      × ((s'.pools pool).ops_left ≡ (if ops == 0 then count else ops))
unfolding fresh
init-IsFree s pool buffer size count ops v =
    let (linked, control) = init_writes s pool buffer size count ops v in
    let stride = align_up_lem size v.size_small in
    (
      record {
        chain =
            rw (linked, control)
              (all_linked s.mem count (align_up size 4) buffer v.count_pos v.buffer_pos
                (omega (arith, stride, v.size_pos)) v.no_wrap);
        distinct =
            blocks-Distinct count (align_up size 4) buffer (omega (arith, stride, v.size_pos));
        counted =
            rw control (omega (arith, v.count_small, length-blocks count (align_up size 4) buffer));
        small = rw control (omega arith);
        fits =
            rw control (omega (arith, v.count_small, length-blocks count (align_up size 4) buffer));
        lowest = rw control (omega arith);
      },
      rw control (omega (arith, v.count_small)),
      rw control (ground (arith, v.count_small)),
    )
