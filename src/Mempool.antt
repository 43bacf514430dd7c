-- ===== src/Mempool.antt =====
-- core/smart_mempool.c and its header: fixed-size blocks whose free list runs through the blocks
-- themselves, with a budget of operations per tick. Each function masks interrupts for its whole body.
pub mod Inv
pub mod Init
pub mod Clients
pub mod DoubleFree
mod Tests
use smart_os.Base.{
  ℕ, zero, suc, ◌+◌, ◌-◌, ◌*◌, ◌/◌, ◌%◌, Bool, true, false, not, ◌&&◌, ◌||◌, Option, none, some,
  List, [], ◌∷◌, ◌++◌, Ptr, null, u32, u16, sub_u32, sub_u16, length, ltb, leb, ◌==◌, if◌then◌else◌,
}
use smart_os.Base.Chain.{update}

abbrev pub smart_mempool_max_pools : ℕ
smart_mempool_max_pools = 4

-- `smart_mempool_status_t`; `empty` is its constructor of that name.
pub data Status : Type 0 where
  ok empty busy invalid : Status

-- `smart_mempool_t`
pub record Pool : Type 0 where
  pub buffer : Ptr
  pub buffer_end : Ptr
  pub block_size : ℕ
  pub block_stride : ℕ
  pub block_count : ℕ  -- uint16_t
  pub free_count : ℕ  -- uint16_t
  pub ops_per_tick : ℕ  -- uint16_t
  pub ops_left : ℕ  -- uint16_t
  pub free_list : Ptr
  pub min_free_count : ℕ  -- uint16_t

-- The memory word at each address, the pools by address, and the used part of `pool_registry`.
pub record Store : Type 0 where
  pub mem : Ptr → Ptr
  pub pools : Ptr → Pool
  pub registry : List Ptr

-- `align` is a power of two, so `& ~(align - 1)` rounds down to a multiple of it.
pub align_up : ℕ → ℕ → ℕ
align_up value align = u32 (value + (align - 1)) / align * align

-- `smart_mempool_register`, whose result no caller reads.
pub register : Store → Ptr → Store
register s pool =
    if leb smart_mempool_max_pools (length s.registry)
    then s
    else record s { registry = s.registry ++ (pool ∷ []) }

pub address_valid : Pool → Ptr → Bool
address_valid pool block =
    if block == null
    then false
    else if ltb block pool.buffer || leb pool.buffer_end block
    then false
    else sub_u32 block pool.buffer % pool.block_stride == 0

-- The loop of `smart_mempool_init` from index `i`, with `n` rounds left.
pub link_blocks : ℕ → ℕ → (buffer stride block_count : ℕ) → (Ptr → Ptr) → Ptr → Ptr
link_blocks zero i buffer stride block_count mem = mem
link_blocks (suc n) i buffer stride block_count mem =
    let current = u32 (buffer + i * stride) in
    link_blocks n (i + 1) buffer stride block_count
      (update mem current (if ltb (i + 1) block_count then u32 (current + stride) else null))

-- The control block that `smart_mempool_init` writes.
pub fresh : Ptr → ℕ → ℕ → ℕ → Pool
unfolding align_up
fresh buffer block_size block_count ops_per_tick =
    let stride = align_up block_size 4 in
    let ops = if ops_per_tick == 0 then u16 block_count else ops_per_tick in
    record {
      buffer = buffer;
      buffer_end = u32 (buffer + stride * block_count);
      block_size = block_size;
      block_stride = stride;
      block_count = u16 block_count;
      free_count = u16 block_count;
      ops_per_tick = ops;
      ops_left = ops;
      free_list = buffer;
      min_free_count = u16 block_count;
    }

pub init : Store → (pool buffer : Ptr) → (block_size block_count ops_per_tick : ℕ) → Store
unfolding fresh link_blocks register align_up
init s pool buffer block_size block_count ops_per_tick =
    if pool == null || buffer == null || block_size == 0 || block_count == 0
    then s
    else register
        (record s {
          mem = link_blocks block_count 0 buffer (align_up block_size 4) block_count s.mem;
          pools = update s.pools pool (fresh buffer block_size block_count ops_per_tick);
        })
        pool

-- The branch of `smart_mempool_alloc_try` that takes a block.
pub take_block : Store → Ptr → Store
take_block s pool =
    let p = s.pools pool in
    let left = sub_u16 p.free_count 1 in
    record s {
      pools = update s.pools pool (record p {
        free_list = s.mem p.free_list;
        free_count = left;
        min_free_count = if ltb left p.min_free_count then left else p.min_free_count;
        ops_left = sub_u16 p.ops_left 1;
      });
    }

-- The Boolean says whether `out_block` is not `NULL`; the option is what `*out_block` is set to.
pub alloc_try : Store → Ptr → Bool → Status × Option Ptr × Store
unfolding take_block
alloc_try s pool out_block =
    if pool == null || not out_block
    then (invalid, none, s)
    else if (s.pools pool).ops_left == 0
    then (busy, none, s)
    else if (s.pools pool).free_list == null
    then (empty, none, s)
    else (ok, some (s.pools pool).free_list, take_block s pool)

-- The branch of `smart_mempool_free_try` that takes the block back.
pub put_block : Store → Ptr → Ptr → Store
put_block s pool block =
    let p = s.pools pool in
    record s {
      mem = update s.mem block p.free_list;
      pools = update s.pools pool (record p {
        free_list = block;
        free_count = u16 (p.free_count + 1);
        ops_left = sub_u16 p.ops_left 1;
      });
    }

pub free_try : Store → Ptr → Ptr → Status × Store
unfolding put_block address_valid
free_try s pool block =
    if pool == null || block == null
    then (invalid, s)
    else if not (address_valid (s.pools pool) block)
    then (invalid, s)
    else if (s.pools pool).ops_left == 0
    then (busy, s)
    else (ok, put_block s pool block)

-- The loop of `smart_mempool_tick` over the registry.
pub refill : List Ptr → (Ptr → Pool) → Ptr → Pool
refill [] pools = pools
refill (q ∷ qs) pools = refill qs (
    if q == null
    then pools
    else update pools q (record (pools q) { ops_left = (pools q).ops_per_tick }))

pub tick : Store → Store
unfolding refill
tick s = record s { pools = refill s.registry s.pools }

pub get_free : Store → Ptr → ℕ
get_free s pool = if pool == null then 0 else (s.pools pool).free_count

pub get_min_free : Store → Ptr → ℕ
get_min_free s pool = if pool == null then 0 else (s.pools pool).min_free_count

-- `smart_mempool_stats_t`
pub record Stats : Type 0 where
  pub block_size : ℕ
  pub block_count : ℕ
  pub free_count : ℕ
  pub min_free_count : ℕ

-- What `smart_mempool_get_stats` writes to `*stats`, if anything.
pub get_stats : Store → Ptr → Bool → Option Stats
get_stats s pool stats =
    if pool == null || not stats
    then none
    else some (record {
      block_size = (s.pools pool).block_size;
      block_count = (s.pools pool).block_count;
      free_count = (s.pools pool).free_count;
      min_free_count = (s.pools pool).min_free_count;
    })
