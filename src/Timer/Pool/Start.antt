-- ===== src/Timer/Pool/Start.antt =====
-- Starting and stopping a timer keep the active list what it says it is.
use smart_os.Base.{
  ℕ, ◌+◌, ◌^◌, ◌≤◌, ◌<◌, ◌≡◌, ◌≢◌, refl, inl, inr, true, false, not, ◌&&◌, some, List, ◌∷◌, Ptr,
  null, u32, sub_u32, arith, length, if◌then◌else◌, Bool-cases, ◌==◌, ==_ne, subst, sym, ap, ◌∙◌,
}
use native.Mathlib.Decide.{ℕ_discrete}
use smart_os.Base.Chain.{
  update, update_at, update_ne, has, Chain, Chain-frame, remove, has-remove_self, has-remove_ne,
  remove-Distinct, length-remove, remove_out,
}
use smart_os.Base.Chain.Unlink.{has_ne}
use smart_os.Timer.{Timer, Timers, running, stopped, is_running, link, refused, start, stop}
use smart_os.Timer.Pool.{IsActive, Unlinked, unlink-Unlinked}

-- A block that is neither `NULL` nor unused is not refused.
pub not_refused : (s : Timers) (p : Ptr) → p ≢ null → (s.pool p).id ≢ 0 → refused s p ≡ false
not_refused s p n i = rw (==_ne p null n, ==_ne (s.pool p).id 0 i) refl

-- The state that `start` leaves when it does start the timer.
pub started : Timers → Ptr → Timers
started s p = record s {
  pool = update s.pool p (record (s.pool p) {
    remaining_ms = (s.pool p).period_ms;
    state = running;
    next = s.active_timer_list;
  });
  active_timer_list = p;
  stats = record (s.stats) { active_timers = u32 (s.stats.active_timers + 1) };
}

pub start-started :
    (s : Timers) (p : Ptr)
    → refused s p ≡ false
    → is_running (s.pool p).state ≡ false
    → start s p ≡ (true, started s p)
unfolding start started
start-started s p r n = rw (r, n) refl

-- The started timer is in front, and links to what was there.
pub link-started :
    (s : Timers) (p : Ptr)
    → ((started s p).active_timer_list ≡ p) × (link (started s p).pool p ≡ s.active_timer_list)
unfolding started
link-started s p =
    let t = s.pool p in
    let new : Timer = record t {
      remaining_ms = t.period_ms;
      state = running;
      next = s.active_timer_list;
    } in
    (refl, ap (λ u. u.next) (update_at s.pool p new p refl))

started-IsActive :
    (s : Timers) (p : Ptr) (xs : List Ptr)
    → IsActive s xs
    → p ≢ null
    → is_running (s.pool p).state ≡ false
    → length xs + 1 < 2 ^ 31
    → IsActive (started s p) (p ∷ xs)
unfolding started
started-IsActive s p xs v z n few = record {
  chain = (
    refl,
    z,
    subst (λ b. Chain (link (started s p).pool) b xs)
        (sym (ap (λ t. t.next) (update_at s.pool p new p refl)))
        (Chain-frame (link s.pool) (link (started s p).pool) s.active_timer_list xs
          (λ q h. ap (λ t. t.next) (update_ne s.pool p new q (has_ne p q xs out h))) v.chain),
  );
  distinct = (out, v.distinct);
  listed = λ q. elim (ℕ_discrete p q) [
    | yes e ↦ ap (λ t. is_running t.state) (update_at s.pool p new q e) ∙ ground (arith, e)
    | no m ↦
        ap (λ t. is_running t.state) (update_ne s.pool p new q m) ∙ v.listed q ∙ ground (arith, m)
  ];
  counted = ground (arith, v.counted, few);
  few = omega (arith, few);
}
  where
    out : has p xs ≡ false
    out = sym (v.listed p) ∙ n

    new : Timer
    new = record (s.pool p) {
      remaining_ms = (s.pool p).period_ms;
      state = running;
      next = s.active_timer_list;
    }

-- Starting a timer that exists succeeds and keeps the active list. If the timer was not running, it is put in
-- front, with its link to the old list, its remaining time is its period, its state is running, and the rest of its block stays; if it runs
-- already, its whole block stays. No other block changes. There is a bound of 2^31 on the number of active
-- timers.
pub start-IsActive :
    (s : Timers) (p : Ptr) (xs : List Ptr)
    → IsActive s xs
    → p ≢ null
    → (s.pool p).id ≢ 0
    → length xs + 1 < 2 ^ 31
    → (s₁ : Timers) × (start s p ≡ (true, s₁))
      × IsActive s₁ (if has p xs then xs else p ∷ xs)
      × ((q : Ptr)
          → s₁.pool q ≡ (
              if p == q && not (has p xs)
              then record (s.pool p) {
                remaining_ms = (s.pool p).period_ms;
                state = running;
                next = s.active_timer_list;
              }
              else s.pool q))
unfolding start started
start-IsActive s p xs v z i few = elim (Bool-cases (is_running (s.pool p).state)) [
  | inl r ↦ (
    s,
    rw (not_refused s p z i, r) refl,
    rw (sym (v.listed p) ∙ r) v,
    λ q. ground (arith, v.listed p, r),
  )
  | inr r ↦ (
    started s p,
    start-started s p (not_refused s p z i) r,
    rw (sym (v.listed p) ∙ r) (started-IsActive s p xs v z r few),
    λ q. ground (arith, v.listed p, r),
  )
]

stopped_in : Timers → Ptr → Timers
stopped_in s p = record s {
  pool = update s.pool p (record (s.pool p) { state = stopped; next = null });
  stats = record (s.stats) { active_timers = sub_u32 s.stats.active_timers 1 };
}

stopped-IsActive :
    (s s₁ : Timers) (p : Ptr) (xs : List Ptr)
    → IsActive s xs
    → has p xs ≡ true
    → Unlinked s p xs s₁
    → IsActive (stopped_in s₁ p) (remove p xs)
unfolding stopped_in
stopped-IsActive s s₁ p xs v i u = record {
  chain =
      Chain-frame (link s₁.pool) (link (stopped_in s₁ p).pool) s₁.active_timer_list (remove p xs)
        (λ q h. ap (λ t. t.next) (update_ne s₁.pool p new q (has_ne p q (remove p xs) out h)))
        u.chain;
  distinct = remove-Distinct p xs v.distinct;
  listed = λ q. elim (ℕ_discrete p q) [
    | yes e ↦
        ap (λ t. is_running t.state) (update_at s₁.pool p new q e)
        ∙ sym (subst (λ z. has z (remove p xs) ≡ false) e out)
    | no m ↦
        ap (λ t. is_running t.state) (update_ne s₁.pool p new q m)
        ∙ ap is_running (u.blocks q).state
        ∙ v.listed q
        ∙ sym (has-remove_ne p q xs m)
  ];
  counted = ground (arith, u.stats, v.counted, v.few, length-remove p xs i);
  few = omega (arith, v.few, length-remove p xs i);
}
  where
    out : has p (remove p xs) ≡ false
    out = has-remove_self p xs v.distinct

    new : Timer
    new = record (s₁.pool p) { state = stopped; next = null }

-- Stopping a timer that exists returns, with as much fuel as there are active timers, and succeeds; the
-- timer is no longer running, and the active list is the old one without it, in the same order.
pub stop-IsActive :
    (fuel : ℕ) (s : Timers) (p : Ptr) (xs : List Ptr)
    → IsActive s xs
    → p ≢ null
    → (s.pool p).id ≢ 0
    → length xs ≤ fuel
    → (s₁ : Timers) × (stop fuel s p ≡ some (true, s₁))
      × IsActive s₁ (remove p xs)
      × (is_running (s₁.pool p).state ≡ false)
unfolding stop stopped_in
stop-IsActive fuel s p xs v z i h = elim (Bool-cases (is_running (s.pool p).state)) [
  | inl r ↦
      let (s₁, found, u) =
        unlink-Unlinked fuel s p xs v.chain v.distinct (sym (v.listed p) ∙ r) h in
      (
        stopped_in s₁ p,
        rw (not_refused s p z i, r, found) refl,
        stopped-IsActive s s₁ p xs v (sym (v.listed p) ∙ r) u,
        ap (λ t. is_running t.state)
            (update_at s₁.pool p (record (s₁.pool p) { state = stopped; next = null }) p refl),
      )
  | inr r ↦ (s, rw (not_refused s p z i, r) refl, rw (remove_out p xs (sym (v.listed p) ∙ r)) v, r)
]
