-- ===== src/Mempool/Clients/Ownership.antt =====
-- No history of clients that give back only what they hold loses a block or has it held twice.
use smart_os.Base.{
  ◌≡◌, ◌≢◌, ◌⊎◌, inl, inr, refl, true, List, [], ◌∷◌, Ptr, null, arith, Bool-cases, ap,
}
use smart_os.Base.Chain.{
  has, remove, has-remove_self, has-remove_ne, remove-Distinct, length-remove,
}
use smart_os.Mempool.{Store, Status, ok, take_block, put_block, free_try, tick}
use smart_os.Mempool.Inv.{IsFree, put_block-IsFree}
use smart_os.Mempool.Clients.{
  is_busy, is_empty, is_ok, alloc_try-Allocated, tick_lem, Call, takes, gives, ticks, given, step,
  run, Owned,
}

-- A set of blocks of the clients, beside the free ones, whatever the clients do.
abbrev pub IsOwned : Ptr → Store × List Ptr → Type 0
IsOwned pool c = (free : List Ptr) × Owned pool free c

given_ne : (st : Status) (b : Ptr) (held : List Ptr) → st ≢ ok → given st b held ≡ held
unfolding given
given_ne ok b held n = absurd (n refl)
given_ne _ b held n = refl

module _ (pool : Ptr) (here : pool ≢ null) (s : Store) (held : List Ptr) where
  Owned-take :
      (x : Ptr) (rest : List Ptr)
      → Owned pool (x ∷ rest) (s, held)
      → IsFree (take_block s pool) pool rest
      → Owned pool rest (take_block s pool, x ∷ held)
  unfolding take_block
  Owned-take x rest v w = record {
    listed = w;
    held_once = (ground (arith, v.apart x), v.held_once);
    apart =
        λ b h. ground (arith, v.apart b, v.listed.distinct.0, ap (λ c. has c rest) {x = b} {y = x});
    total = ground (arith, v.total);
  }

  Owned-put :
      (b : Ptr) (free : List Ptr)
      → b ≢ null
      → has b held ≡ true
      → Owned pool free (s, held)
      → Owned pool (b ∷ free) (put_block s pool b, remove b held)
  unfolding put_block
  Owned-put b free n h v = record {
    listed =
        put_block-IsFree s pool here b free n (v.apart b h)
          (omega (arith, v.total, length-remove b held h)) v.listed;
    held_once = remove-Distinct b held v.held_once;
    apart = λ a k. ground (
      arith,
      v.apart a,
      has-remove_ne b a held,
      has-remove_self b held v.held_once,
      ap (λ c. has c (remove b held)) {x = a} {y = b},
    );
    total = ground (arith, v.total, length-remove b held h);
  }

  -- What a free that is accepted says of its block.
  accepted :
      (b : Ptr)
      → ((free_try s pool b).0 ≡ ok) × ((free_try s pool b).1 ≡ put_block s pool b) × (b ≢ null)
        ⊎ ((free_try s pool b).0 ≢ ok) × ((free_try s pool b).1 ≡ s)
  unfolding free_try
  accepted b = ground arith

  tick-IsFree : (free : List Ptr) → IsFree s pool free → IsFree (tick s) pool free
  tick-IsFree free v = record {
    chain = rw ((tick_lem s pool).1, same) v.chain;
    distinct = v.distinct;
    counted = ground (arith, v.counted, (tick_lem s pool).0);
    small = ground (arith, v.small, (tick_lem s pool).0);
    fits = ground (arith, v.fits, (tick_lem s pool).0);
    lowest = ground (arith, v.lowest, (tick_lem s pool).0);
  }
    where
      same : ((tick s).pools pool).free_list ≡ (s.pools pool).free_list
      same = ground (arith, (tick_lem s pool).0)

  step_takes :
      (free : List Ptr) → Owned pool free (s, held) → IsOwned pool (step pool (s, held) takes)
  unfolding step
  step_takes free v = elim (alloc_try-Allocated s pool free here v.listed) [
    | is_busy h e ↦ rw e (free, v)
    | is_empty h n e ↦ rw e (free, v)
    | is_ok x rest h f e w ↦ rw e (rest, Owned-take x rest (rw f at v) w)
  ]

  step-gives :
      (b : Ptr) (free : List Ptr)
      → Owned pool free (s, held)
      → IsOwned pool (step pool (s, held) (gives b))
  unfolding step
  step-gives b free v = elim (Bool-cases (has b held)) [
    | inl h ↦ elim (accepted b) [
      | inl (yielded, e, n) ↦ rw (h, e, yielded) (b ∷ free, Owned-put b free n h v)
      | inr (kept, e) ↦ rw (h, e, given_ne (free_try s pool b).0 b held kept) (free, v)
    ]
    | inr h ↦ rw h (free, v)
  ]

  step_ticks :
      (free : List Ptr) → Owned pool free (s, held) → IsOwned pool (step pool (s, held) ticks)
  unfolding step
  step_ticks free v = (
    free,
    record {
      listed = tick-IsFree free v.listed;
      held_once = v.held_once;
      apart = v.apart;
      total = ground (arith, v.total, (tick_lem s pool).0);
    },
  )

-- Whatever clients take, give back of what they hold, and however ticks fall between: the blocks held
-- and those on the free list stay distinct and apart and make up the whole pool, so no block is lost
-- and none is handed out twice.
pub run-IsOwned :
    (calls : List Call) (pool : Ptr) (c : Store × List Ptr)
    → pool ≢ null
    → IsOwned pool c
    → IsOwned pool (run pool c calls)
unfolding run
run-IsOwned [] pool c here v = v
run-IsOwned (takes ∷ ks) pool (s, held) here (free, v) =
    run-IsOwned ks pool _ here (step_takes pool here s held free v)
run-IsOwned (gives b ∷ ks) pool (s, held) here (free, v) =
    run-IsOwned ks pool _ here (step-gives pool here s held b free v)
run-IsOwned (ticks ∷ ks) pool (s, held) here (free, v) =
    run-IsOwned ks pool _ here (step_ticks pool here s held free v)
