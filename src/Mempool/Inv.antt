-- ===== src/Mempool/Inv.antt =====
-- The free list of a pool, and what each operation does to it.
use smart_os.Base.{
  ◌^◌, ◌≤◌, ◌<◌, ◌≡◌, ◌≢◌, refl, true, false, none, some, List, [], ◌∷◌, Ptr, null, arith, length,
  ==_refl,
}
use smart_os.Base.Chain.{has, Chain, Chain-update, Distinct}
use smart_os.Mempool.{
  Store, ok, empty, busy, address_valid, take_block, put_block, alloc_try, free_try,
}

-- The free list of `pool` is the distinct blocks `xs`, and the counters are right.
pub record IsFree (s : Store) (pool : Ptr) (xs : List Ptr) : Type 0 where
  pub chain : Chain s.mem (s.pools pool).free_list xs
  pub distinct : Distinct xs
  pub counted : (s.pools pool).free_count ≡ length xs
  pub small : (s.pools pool).block_count < 2 ^ 16
  pub fits : length xs ≤ (s.pools pool).block_count
  pub lowest : (s.pools pool).min_free_count ≤ (s.pools pool).free_count

module _ (s : Store) (pool : Ptr) (here : pool ≢ null) where
  -- Without budget nothing is taken.
  pub alloc_try_busy : (s.pools pool).ops_left ≡ 0 → alloc_try s pool true ≡ (busy, none, s)
  unfolding alloc_try
  alloc_try_busy e = ground arith

  -- From an empty free list nothing is taken.
  pub alloc_try_empty :
      0 < (s.pools pool).ops_left → IsFree s pool [] → alloc_try s pool true ≡ (empty, none, s)
  unfolding alloc_try
  alloc_try_empty h v = ground (arith, v.chain)

  pub alloc_try_ok :
      (x : Ptr) (xs : List Ptr)
      → 0 < (s.pools pool).ops_left
      → IsFree s pool (x ∷ xs)
      → alloc_try s pool true ≡ (ok, some x, take_block s pool)
  unfolding alloc_try
  alloc_try_ok x xs h v = ground (arith, v.chain.0, v.chain.1)

  pub take_block-IsFree :
      (x : Ptr) (xs : List Ptr) → IsFree s pool (x ∷ xs) → IsFree (take_block s pool) pool xs
  unfolding take_block
  take_block-IsFree x xs v = record {
    chain = rw (==_refl pool, v.chain.0) v.chain.2;
    distinct = v.distinct.1;
    counted = ground arith;
    small = rw (==_refl pool) v.small;
    fits = ground arith;
    lowest = ground arith;
  }

  pub put_block-IsFree :
      (b : Ptr) (xs : List Ptr)
      → b ≢ null
      → has b xs ≡ false
      → length xs < (s.pools pool).block_count
      → IsFree s pool xs
      → IsFree (put_block s pool b) pool (b ∷ xs)
  unfolding put_block
  put_block-IsFree b xs n out room v = record {
    chain =
        rw (==_refl pool, ==_refl b)
          (refl, n, Chain-update s.mem (s.pools pool).free_list b _ xs out v.chain);
    distinct = (out, v.distinct);
    counted = ground arith;
    small = rw (==_refl pool) v.small;
    fits = ground arith;
    lowest = ground arith;
  }

  -- A block at a valid address is taken back while there is budget.
  pub free_try_ok :
      (b : Ptr)
      → address_valid (s.pools pool) b ≡ true
      → 0 < (s.pools pool).ops_left
      → free_try s pool b ≡ (ok, put_block s pool b)
  unfolding free_try address_valid
  free_try_ok b valid h = ground arith
