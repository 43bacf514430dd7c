-- ===== src/Mempool/DoubleFree.antt =====
-- `smart_mempool_free_try` takes back a block that is free already.
use smart_os.Base.{◌+◌, ◌-◌, ◌%◌, ◌^◌, ◌<◌, ◌≡◌, ◌≢◌, true, some, List, ◌∷◌, Ptr, null, arith, refl}
use smart_os.Mempool.{Store, ok, address_valid, take_block, put_block, alloc_try, free_try}
use smart_os.Mempool.Inv.{IsFree, free_try_ok}

-- Once a block is linked to itself, every allocation hands it out and leaves it so.
record IsLooped (s : Store) (pool b : Ptr) : Type 0 where
  front : (s.pools pool).free_list ≡ b
  self : s.mem b ≡ b

alloc_try-IsLooped :
    (s : Store) (pool b : Ptr)
    → pool ≢ null
    → b ≢ null
    → 0 < (s.pools pool).ops_left
    → (s.pools pool).ops_left < 2 ^ 16
    → IsLooped s pool b
    → ((alloc_try s pool true).1 ≡ some b)
      × IsLooped (alloc_try s pool true).2 pool b
      × (((alloc_try s pool true).2.pools pool).ops_left + 1 ≡ (s.pools pool).ops_left)
unfolding alloc_try take_block
alloc_try-IsLooped s pool b here n h small v = ground (arith, v.front, v.self)

put_block-IsLooped :
    (s : Store) (pool b : Ptr)
    → (s.pools pool).free_list ≡ b
    → IsLooped (put_block s pool b) pool b
      × ((((put_block s pool b).pools pool).ops_left)
          ≡ ((s.pools pool).ops_left + 2 ^ 16 - 1) % 2 ^ 16)
unfolding put_block
put_block-IsLooped s pool b e = ground arith

-- In every pool with a free block at the front of the list and a budget of three operations, a call
-- that frees this block once more is accepted, and the next two allocations both hand it out.
pub double_free :
    (s : Store) (pool b : Ptr) (xs : List Ptr)
    → pool ≢ null
    → IsFree s pool (b ∷ xs)
    → address_valid (s.pools pool) b ≡ true
    → 2 < (s.pools pool).ops_left
    → (s.pools pool).ops_left < 2 ^ 16
    → let (st, s₁) = free_try s pool b in
      let (_, first, s₂) = alloc_try s₁ pool true in
      (st ≡ ok) × (first ≡ some b) × ((alloc_try s₂ pool true).1 ≡ some b)
double_free s pool b xs here v valid h small =
    let (looped, left) = put_block-IsLooped s pool b v.chain.0 in
    let s₁ = put_block s pool b in
    let (got, again, fewer) =
      alloc_try-IsLooped s₁ pool b here v.chain.1 (omega (arith, left)) (omega (arith, left))
        looped in
    let (got', _, _) =
      alloc_try-IsLooped (alloc_try s₁ pool true).2 pool b here v.chain.1
        (omega (arith, left, fewer)) (omega (arith, left, fewer)) again in
    rw (free_try_ok s pool here b valid (omega arith)) (refl, got, got')
