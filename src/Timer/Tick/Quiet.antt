-- ===== src/Timer/Tick/Quiet.antt =====
-- A tick at which no timer is due.
use smart_os.Base.{
  ℕ, zero, suc, ◌-◌, ◌<◌, ◌≡◌, ◌≢◌, refl, ap, ◌∙◌, sym, subst, true, false, some, List, [], ◌∷◌,
  Ptr, null, arith, length, ◌==◌, ==_ne, ==_refl, if◌then◌else◌,
}
use native.Mathlib.Decide.{ℕ_discrete}
use smart_os.Base.Chain.{has, Distinct, Chain, Chain-frame, update_at, update_ne}
use smart_os.Base.Chain.Unlink.{has_ne}
use smart_os.Timer.{Timer, Timers, link, set_timer}
use smart_os.Timer.Tick.{count_down, tick_loop, tick}

-- The timers `xs` have been counted down by one, and that is all.
pub record IsCounted (s : Timers) (xs : List Ptr) (s₁ : Timers) : Type 0 where
  pub blocks : (q : Ptr) → s₁.pool q ≡ (if has q xs then count_down (s.pool q) else s.pool q)
  pub list : s₁.active_timer_list ≡ s.active_timer_list
  pub made : s₁.timer_pool_init ≡ s.timer_pool_init
  pub ids : s₁.next_timer_id ≡ s.next_timer_id
  pub stats : s₁.stats ≡ s.stats

-- No timer of the list is due at the next tick.
abbrev pub NoneDue : (Ptr → Timer) → List Ptr → Type 0
NoneDue pool [] = Unit
NoneDue pool (x ∷ xs) = (1 < (pool x).remaining_ms) × NoneDue pool xs

NoneDue-frame :
    (f g : Ptr → Timer) (xs : List Ptr)
    → ((a : Ptr) → has a xs ≡ true → g a ≡ f a)
    → NoneDue f xs
    → NoneDue g xs
NoneDue-frame f g [] same d = tt
NoneDue-frame f g (x ∷ xs) same d =
    rw (same x (ground arith)) (d.0, NoneDue-frame f g xs (λ a h. same a (ground arith)) d.1)

-- The state after the first timer has been counted down.
counted : Timers → Ptr → Timers
counted s x = set_timer s x (count_down (s.pool x))

counted-link : (s : Timers) (x q : Ptr) → link (counted s x).pool q ≡ link s.pool q
unfolding counted count_down
counted-link s x q = elim (ℕ_discrete x q) [
  | yes e ↦
      ap (λ t. t.next) (update_at s.pool x (count_down (s.pool x)) q e)
      ∙ ap (λ z. (s.pool z).next) e
  | no n ↦ ap (λ t. t.next) (update_ne s.pool x (count_down (s.pool x)) q n)
]

counted-blocks :
    (s : Timers) (x q : Ptr) (xs : List Ptr)
    → has x xs ≡ false
    → (if has q xs then count_down ((counted s x).pool q) else (counted s x).pool q)
      ≡ (if has q (x ∷ xs) then count_down (s.pool q) else s.pool q)
unfolding counted
counted-blocks s x q xs out = elim (ℕ_discrete x q) [
  | yes e ↦
      subst
        (λ z.
          (if has z xs then count_down ((counted s x).pool z) else (counted s x).pool z)
          ≡ (if has z (x ∷ xs) then count_down (s.pool z) else s.pool z))
        e (rw (out, ==_refl x) refl)
  | no n ↦ rw (==_ne q x (λ e. n (sym e)), ==_ne x q n) refl
]

counted_ne : (s : Timers) (x q : Ptr) → x ≢ q → (counted s x).pool q ≡ s.pool q
unfolding counted
counted_ne s x q n = update_ne s.pool x (count_down (s.pool x)) q n

counted-IsCounted :
    (s : Timers) (x : Ptr) (xs : List Ptr) (s₁ : Timers)
    → has x xs ≡ false
    → IsCounted (counted s x) xs s₁
    → IsCounted s (x ∷ xs) s₁
unfolding counted
counted-IsCounted s x xs s₁ out v = record {
  blocks = λ q. v.blocks q ∙ counted-blocks s x q xs out;
  list = v.list;
  made = v.made;
  ids = v.ids;
  stats = v.stats;
}

module _ (call : Ptr → Ptr → Timers → Timers) (elapsed : Ptr → Ptr → ℕ) where
  loop_counts :
      (fuel : ℕ) (s : Timers) (prev x : Ptr)
      → x ≢ null
      → 1 < (s.pool x).remaining_ms
      → tick_loop call elapsed (suc fuel) s prev x
        ≡ tick_loop call elapsed fuel (counted s x) x (s.pool x).next
  unfolding tick_loop count_down counted
  loop_counts fuel s prev x z d = rw (==_ne x null z, later) refl
    where
      later : ((s.pool x).remaining_ms - 1 == 0) ≡ false
      later = ground arith

  ended :
      (fuel : ℕ) (s : Timers) (prev p : Ptr)
      → p ≡ null
      → tick_loop call elapsed (suc fuel) s prev p ≡ some s
  unfolding tick_loop
  ended fuel s prev p e =
      subst (λ z. tick_loop call elapsed (suc fuel) s prev z ≡ some s) (sym e) refl

  loop-IsCounted :
      (fuel : ℕ) (s : Timers) (prev p : Ptr) (xs : List Ptr)
      → Chain (link s.pool) p xs
      → Distinct xs
      → NoneDue s.pool xs
      → length xs < fuel
      → (s₁ : Timers) × (tick_loop call elapsed fuel s prev p ≡ some s₁) × IsCounted s xs s₁
  loop-IsCounted zero s prev p xs c d a h = absurd (omega arith)
  loop-IsCounted (suc fuel) s prev p [] c d a h = (
    s,
    ended fuel s prev p c,
    record { blocks = λ q. refl; list = refl; made = refl; ids = refl; stats = refl },
  )
  loop-IsCounted (suc fuel) s prev p (x ∷ xs) c d a h =
      let s' = counted s x in
      let apart : (q : Ptr) → has q xs ≡ true → s'.pool q ≡ s.pool q =
        λ q i. counted_ne s x q (has_ne x q xs d.0 i) in
      let (s₁, e, v) =
        loop-IsCounted fuel s' x (s.pool x).next xs
          (Chain-frame (link s.pool) (link s'.pool) (s.pool x).next xs (λ q i. counted-link s x q)
            c.2)
          d.1 (NoneDue-frame s.pool s'.pool xs apart a.1) (omega arith) in
      (s₁, rw c.0 (loop_counts fuel s prev x c.1 a.0 ∙ e), counted-IsCounted s x xs s₁ d.0 v)

-- A tick at which no active timer is due returns, calls no callback, and counts every active timer down
-- by one; no other timer, nor the list, nor the statistics change.
pub tick-IsCounted :
    (call : Ptr → Ptr → Timers → Timers) (elapsed : Ptr → Ptr → ℕ) (fuel : ℕ) (s : Timers)
    (xs : List Ptr)
    → s.timer_pool_init ≡ true
    → Chain (link s.pool) s.active_timer_list xs
    → Distinct xs
    → NoneDue s.pool xs
    → length xs < fuel
    → (s₁ : Timers) × (tick call elapsed fuel s ≡ some s₁) × IsCounted s xs s₁
unfolding tick
tick-IsCounted call elapsed fuel s xs made c d a h =
    let (s₁, e, v) = loop-IsCounted call elapsed fuel s null s.active_timer_list xs c d a h in
    (
      s₁,
      ap (λ b. if b then tick_loop call elapsed fuel s null s.active_timer_list else some s) made
          ∙ e,
      v,
    )
