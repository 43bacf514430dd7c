-- ===== src/Timer/Tick/Lost.antt =====
-- Periodic timers that are due at the same tick from the front of the list.
use smart_os.Base.{
  ℕ, zero, suc, ◌-◌, ◌≤◌, ◌<◌, ◌≡◌, ◌≢◌, refl, inl, inr, ap, ap₂, ◌∙◌, sym, subst, true, false,
  some, List, [], ◌∷◌, Ptr, null, arith, length, ◌==◌, ==_ne, if◌then◌else◌, Bool-cases,
}
use native.Mathlib.Decide.{ℕ_discrete}
use smart_os.Base.Chain.{has, Distinct, Chain, Chain-frame, update_at, update_ne}
use smart_os.Base.Chain.Unlink.{has_ne}
use smart_os.Timer.{is_running, running, expired, Timer, Timers, link, set_timer}
use smart_os.Timer.Tick.{is_periodic, count_down, expire, rearm, run_callback, tick_loop, tick}

-- The last timer of a list, or `p` if it is empty.
abbrev pub last : Ptr → List Ptr → Ptr
last p [] = p
last p (x ∷ xs) = last x xs

-- All timers of a list are periodic and due at the next tick.
abbrev pub AllDue : (Ptr → Timer) → List Ptr → Type 0
AllDue pool [] = Unit
AllDue pool (x ∷ xs) =
    (is_periodic (pool x).type ≡ true) × ((pool x).remaining_ms ≤ 1) × AllDue pool xs

AllDue-frame :
    (f g : Ptr → Timer) (xs : List Ptr)
    → ((a : Ptr) → has a xs ≡ true → g a ≡ f a)
    → AllDue f xs
    → AllDue g xs
AllDue-frame f g [] same d = tt
AllDue-frame f g (x ∷ xs) same d =
    rw (same x (ground arith)) (d.0, d.1, AllDue-frame f g xs (λ a h. same a (ground arith)) d.2)

is_head : (x q : Ptr) (xs : List Ptr) → has q (x ∷ xs) ≡ true → has q xs ≡ false → x ≡ q
is_head x q xs i j = ground arith

head_out : (x q : Ptr) (xs : List Ptr) → has q (x ∷ xs) ≡ false → (x ≢ q) × (has q xs ≡ false)
head_out x q xs i = ground arith

Chain-last :
    (f : Ptr → Ptr) (p x : Ptr) (xs : List Ptr)
    → Chain f p (x ∷ xs)
    → (last x xs ≢ null) × (f (last x xs) ≡ null)
Chain-last f p x [] c = (c.1, c.2)
Chain-last f p x (y ∷ ys) c = Chain-last f (f x) y ys c.2

abbrev as_expired : Timer → Timer
as_expired t = record t { state = expired }

abbrev as_rearmed : Timer → Ptr → Timer
as_rearmed t a = record t { remaining_ms = t.period_ms; state = running; next = a }

rearm_facts :
    (u : Timers) (p : Ptr)
    → is_periodic (u.pool p).type ≡ true
    → ((rearm u p).pool p ≡ record (u.pool p) {
      remaining_ms = (u.pool p).period_ms;
      state = running;
      next = u.active_timer_list;
    })
      × ((rearm u p).active_timer_list ≡ p)
      × ((q : Ptr) → p ≢ q → (rearm u p).pool q ≡ u.pool q)
unfolding rearm
rearm_facts u p d =
    let new = record (u.pool p) {
      remaining_ms = (u.pool p).period_ms;
      state = running;
      next = u.active_timer_list;
    } in
    rw d (update_at u.pool p new p refl, refl, λ q n. update_ne u.pool p new q n)

expire_facts :
    (u : Timers) (p n : Ptr)
    → ((expire u null p n).pool p ≡ record (u.pool p) { state = expired })
      × ((expire u null p n).active_timer_list ≡ n)
      × ((q : Ptr) → p ≢ q → (expire u null p n).pool q ≡ u.pool q)
unfolding expire
expire_facts u p n =
    let new = record (u.pool p) { state = expired } in
    (update_at u.pool p new p refl, refl, λ q ne. update_ne u.pool p new q ne)

module _ (call : Ptr → Ptr → Timers → Timers) (elapsed : Ptr → Ptr → ℕ)
    (quiet : (f x : Ptr) (s : Timers) → call f x s ≡ s) where
  -- The state after the due timer `p` at the front has expired and its callback has run.
  called : Timers → Ptr → Timers
  called s p =
      run_callback call elapsed
        (expire (set_timer s p (count_down (s.pool p))) null p (s.pool p).next) p

  run_callback_facts :
      (s : Timers) (p : Ptr)
      → ((run_callback call elapsed s p).pool ≡ s.pool)
        × ((run_callback call elapsed s p).active_timer_list ≡ s.active_timer_list)
  unfolding run_callback
  run_callback_facts s p = rw (quiet (s.pool p).callback (s.pool p).callback_arg s) (ground arith)

  called_facts :
      (s : Timers) (p : Ptr)
      → ((called s p).pool p ≡ record (count_down (s.pool p)) { state = expired })
        × ((called s p).active_timer_list ≡ (s.pool p).next)
        × ((q : Ptr) → p ≢ q → (called s p).pool q ≡ s.pool q)
  unfolding called
  called_facts s p =
      let u = set_timer s p (count_down (s.pool p)) in
      let v = expire u null p (s.pool p).next in
      let (self, first, others) = expire_facts u p (s.pool p).next in
      let (pool, list) = run_callback_facts v p in
      (
        ap (λ f. f p) pool
            ∙ self
            ∙ ap as_expired (update_at s.pool p (count_down (s.pool p)) p refl),
        list ∙ first,
        λ q n. ap (λ f. f q) pool ∙ others q n ∙ update_ne s.pool p (count_down (s.pool p)) q n,
      )

  -- A due periodic timer at the front is in front again, and all that has changed of it is its count.
  fired_facts :
      (s : Timers) (p : Ptr)
      → is_periodic (s.pool p).type ≡ true
      → ((rearm (called s p) p).pool p
          ≡ record (s.pool p) { remaining_ms = (s.pool p).period_ms; state = running })
        × ((rearm (called s p) p).active_timer_list ≡ p)
        × ((q : Ptr) → p ≢ q → (rearm (called s p) p).pool q ≡ s.pool q)
  unfolding count_down
  fired_facts s p d =
      let (self, first, others) = called_facts s p in
      let (self', first', others') =
        rearm_facts (called s p) p (ap (λ t. is_periodic t.type) self ∙ d) in
      (self' ∙ ap₂ as_rearmed self first, first', λ q n. others' q n ∙ others q n)

  loop_fires :
      (fuel : ℕ) (s : Timers) (p : Ptr)
      → p ≢ null
      → (s.pool p).remaining_ms ≤ 1
      → tick_loop call elapsed (suc fuel) s null p
        ≡ tick_loop call elapsed fuel (rearm (called s p) p) null (s.pool p).next
  unfolding tick_loop count_down called
  loop_fires fuel s p z d = rw (==_ne p null z, due) refl
    where
      due : ((s.pool p).remaining_ms - 1 == 0) ≡ true
      due = ground arith

  ended :
      (fuel : ℕ) (s : Timers) (p : Ptr)
      → p ≡ null
      → tick_loop call elapsed (suc fuel) s null p ≡ some s
  unfolding tick_loop
  ended fuel s p e = subst (λ z. tick_loop call elapsed (suc fuel) s null z ≡ some s) (sym e) refl

  -- What the whole walk does when every timer of it is periodic and due.
  loop_loses :
      (fuel : ℕ) (s : Timers) (p : Ptr) (xs : List Ptr)
      → Chain (link s.pool) p xs
      → Distinct xs
      → AllDue s.pool xs
      → length xs < fuel
      → (s₁ : Timers) × (tick_loop call elapsed fuel s null p ≡ some s₁)
        × (s₁.active_timer_list ≡ last s.active_timer_list xs)
        × ((q : Ptr) → link s₁.pool q ≡ link s.pool q)
        × ((q : Ptr) → has q xs ≡ true → is_running (s₁.pool q).state ≡ true)
        × ((q : Ptr) → has q xs ≡ false → s₁.pool q ≡ s.pool q)
  loop_loses zero s p xs c d a h = absurd (omega arith)
  loop_loses (suc fuel) s p [] c d a h =
      (s, ended fuel s p c, refl, λ q. refl, λ q i. absurd (ground arith), λ q i. refl)
  loop_loses (suc fuel) s p (x ∷ xs) c d a h =
      let s' = rearm (called s x) x in
      let (self, first, others) = fired_facts s x a.0 in
      let links : (q : Ptr) → link s'.pool q ≡ link s.pool q = λ q. elim (ℕ_discrete x q) [
        | yes e ↦ subst (λ z. link s'.pool z ≡ link s.pool z) e (ap (λ t. t.next) self)
        | no n ↦ ap (λ t. t.next) (others q n)
      ] in
      let apart : (q : Ptr) → has q xs ≡ true → s'.pool q ≡ s.pool q =
        λ q i. others q (has_ne x q xs d.0 i) in
      let (s₁, e, l, k, r, o) =
        loop_loses fuel s' (s.pool x).next xs
          (Chain-frame (link s.pool) (link s'.pool) (s.pool x).next xs (λ q i. links q) c.2) d.1
          (AllDue-frame s.pool s'.pool xs apart a.2) (omega arith) in
      (
        s₁,
        rw c.0 (loop_fires fuel s x c.1 a.1 ∙ e),
        l ∙ ap (λ z. last z xs) first,
        λ q. k q ∙ links q,
        λ q i. elim (Bool-cases (has q xs)) [
          | inl j ↦ r q j
          | inr j ↦
              ap (λ t. is_running t.state) (o q j)
              ∙ subst (λ z. is_running (s'.pool z).state ≡ true) (is_head x q xs i j)
                  (ap (λ t. is_running t.state) self)
        ],
        λ q i. o q (head_out x q xs i).1 ∙ others q (head_out x q xs i).0,
      )

-- If every timer of the active list is periodic and due, a tick returns, and leaves only the last of them
-- in the list, although the state of all of them is running. This holds for callbacks that do not touch the
-- timers.
pub tick_loses :
    (call : Ptr → Ptr → Timers → Timers) (elapsed : Ptr → Ptr → ℕ)
    → ((f x : Ptr) (s : Timers) → call f x s ≡ s)
    → (fuel : ℕ) (s : Timers) (x : Ptr) (xs : List Ptr) → s.timer_pool_init ≡ true
    → Chain (link s.pool) s.active_timer_list (x ∷ xs)
    → Distinct (x ∷ xs)
    → AllDue s.pool (x ∷ xs)
    → length (x ∷ xs) < fuel
    → (s₁ : Timers) × (tick call elapsed fuel s ≡ some s₁)
      × Chain (link s₁.pool) s₁.active_timer_list (last x xs ∷ [])
      × ((q : Ptr) → has q (x ∷ xs) ≡ true → is_running (s₁.pool q).state ≡ true)
unfolding tick
tick_loses call elapsed quiet fuel s x xs made c d a h =
    let (s₁, e, l, k, r, _) =
      loop_loses call elapsed quiet fuel s s.active_timer_list (x ∷ xs) c d a h in
    let (z, ended) = Chain-last (link s.pool) s.active_timer_list x xs c in
    (
      s₁,
      ap (λ b. if b then tick_loop call elapsed fuel s null s.active_timer_list else some s) made
          ∙ e,
      (l, z, k (last x xs) ∙ ended),
      r,
    )
