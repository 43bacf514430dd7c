-- ===== src/Mempool/Clients.antt =====
-- Clients that give back only what they hold: no block is ever lost or held twice.
pub mod Ownership
use smart_os.Base.{
  ℕ, zero, suc, ◌+◌, ◌-◌, ◌%◌, ◌^◌, ◌≤◌, ◌<◌, ◌≡◌, ◌≢◌, ◌⊎◌, inl, inr, refl, Bool, true, false, not,
  ◌&&◌, Option, none, some, List, [], ◌∷◌, Ptr, null, arith, length, ltb, ◌==◌, if◌then◌else◌,
  Bool-cases, ap,
}
use native.Mathlib.Decide.{ℕ_discrete}
use smart_os.Base.Chain.{
  has, update, Chain, Distinct, remove, has-remove, has-remove_self, has-remove_ne, remove-Distinct,
  length-remove,
}
use smart_os.Mempool.{
  Pool, Store, Status, ok, empty, busy, invalid, take_block, put_block, alloc_try, free_try, tick,
  refill, address_valid,
}
use smart_os.Mempool.Inv.{
  IsFree, alloc_try_busy, alloc_try_empty, alloc_try_ok, take_block-IsFree, put_block-IsFree,
}

-- What `alloc_try` may answer from a pool whose free blocks are `xs`.
pub data Allocated (s : Store) (pool : Ptr) (xs : List Ptr) (res : Status × Option Ptr × Store)
    : Type 0 where
  is_busy : (s.pools pool).ops_left ≡ 0 → res ≡ (busy, none, s) → Allocated s pool xs res
  is_empty :
      0 < (s.pools pool).ops_left → xs ≡ [] → res ≡ (empty, none, s) → Allocated s pool xs res
  is_ok :
      (x : Ptr) (rest : List Ptr)
      → 0 < (s.pools pool).ops_left
      → xs ≡ x ∷ rest
      → res ≡ (ok, some x, take_block s pool)
      → IsFree (take_block s pool) pool rest
      → Allocated s pool xs res

-- `smart_mempool_alloc_try` is busy exactly without budget and then changes nothing; with budget it
-- says empty exactly when no block is free and changes nothing; otherwise it hands out the first free
-- block, and the others are the free blocks left, with the counters right.
pub alloc_try-Allocated :
    (s : Store) (pool : Ptr) (xs : List Ptr)
    → pool ≢ null
    → IsFree s pool xs
    → Allocated s pool xs (alloc_try s pool true)
alloc_try-Allocated s pool [] here v = elim (ℕ_discrete (s.pools pool).ops_left 0) [
  | yes e ↦ is_busy e (alloc_try_busy s pool here e)
  | no n ↦ is_empty (omega arith) refl (alloc_try_empty s pool here (omega arith) v)
]
alloc_try-Allocated s pool (x ∷ xs) here v = elim (ℕ_discrete (s.pools pool).ops_left 0) [
  | yes e ↦ is_busy e (alloc_try_busy s pool here e)
  | no n ↦
      is_ok x xs (omega arith) refl (alloc_try_ok s pool here x xs (omega arith) v)
        (take_block-IsFree s pool here x xs v)
]

abbrev renewed : Pool → Pool
renewed p = record p { ops_left = p.ops_per_tick }

-- A second renewal changes nothing, so a pool may stand in the registry twice.
refill_lem :
    (qs : List Ptr) (pools : Ptr → Pool) (p : Ptr)
    → refill qs pools p ≡ (if has p qs && not (p == null) then renewed (pools p) else pools p)
unfolding refill
refill_lem [] pools p = refl
refill_lem (q ∷ qs) pools p =
    let after = if q == null then pools else update pools q (renewed (pools q)) in
    ground (arith, refill_lem qs after p, ap pools {x = q} {y = p})

-- A tick gives every registered pool its budget back, and changes nothing else.
pub tick_lem :
    (s : Store) (p : Ptr)
    → ((tick s).pools p ≡ (
        if has p s.registry && not (p == null)
        then record (s.pools p) { ops_left = (s.pools p).ops_per_tick }
        else s.pools p))
      × ((tick s).mem ≡ s.mem)
      × ((tick s).registry ≡ s.registry)
unfolding tick
tick_lem s p = (refill_lem s.registry s.pools p, refl, refl)

-- A client's calls.
pub data Call : Type 0 where
  takes : Call
  gives : Ptr → Call
  ticks : Call

pub taken : Option Ptr → List Ptr → List Ptr
taken none held = held
taken (some b) held = b ∷ held

pub given : Status → Ptr → List Ptr → List Ptr
given ok b held = remove b held
given _ b held = held

-- The store and the blocks that the clients hold, after one call.
pub step : Ptr → Store × List Ptr → Call → Store × List Ptr
unfolding taken given
step pool (s, held) takes = let (st, out, s') = alloc_try s pool true in (s', taken out held)
step pool (s, held) (gives b) =
    if has b held then (let (st, s') = free_try s pool b in (s', given st b held)) else (s, held)
step pool (s, held) ticks = (tick s, held)

pub run : Ptr → Store × List Ptr → List Call → Store × List Ptr
run pool c [] = c
run pool c (k ∷ ks) = run pool (step pool c k) ks

-- The held blocks and the free ones are distinct, and make up all blocks of the pool.
pub record Owned (pool : Ptr) (free : List Ptr) (c : Store × List Ptr) : Type 0 where
  pub listed : IsFree c.0 pool free
  pub held_once : Distinct c.1
  pub apart : (b : Ptr) → has b c.1 ≡ true → has b free ≡ false
  pub total : length c.1 + length free ≡ (c.0.pools pool).block_count
