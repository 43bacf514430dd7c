-- ===== src/Timer/Pool/Reset.antt =====
-- Resetting a running timer and starting it again.
use smart_os.Base.{◌≡◌, ◌≢◌, refl, ap, ◌∙◌, sym, subst, true, List, [], ◌∷◌, Ptr, null}
use smart_os.Base.Chain.{Chain, update_at}
use smart_os.Timer.{Timer, Timers, stopped, is_running, link, set_timer, start, reset}
use smart_os.Timer.Pool.{IsActive}
use smart_os.Timer.Pool.Start.{not_refused, started, start-started, link-started}

-- No chain begins at a node that links to itself.
Chain-loop : (f : Ptr → Ptr) (p : Ptr) (xs : List Ptr) → p ≢ null → f p ≡ p → ¬ Chain f p xs
Chain-loop f p [] z e c = z c
Chain-loop f p (x ∷ xs) z e c = Chain-loop f p xs z e (rw (ap f (sym c.0) ∙ e) at c.2)

-- The timer as `reset` leaves it.
reset_timer : Timer → Timer
reset_timer t = record t { remaining_ms = t.period_ms; state = stopped }

reset-done :
    (s : Timers) (p : Ptr)
    → p ≢ null
    → (s.pool p).id ≢ 0
    → reset s p ≡ (true, set_timer s p (reset_timer (s.pool p)))
unfolding reset reset_timer
reset-done s p z i = rw (not_refused s p z i) refl

-- If the timer at the front of the active list is reset and then started, both calls succeed. The
-- timer is at the front again and links to itself, so the active list no longer ends.
pub start-reset :
    (s : Timers) (p : Ptr) (xs : List Ptr)
    → IsActive s (p ∷ xs)
    → (s.pool p).id ≢ 0
    → (s₁ s₂ : Timers) × (reset s p ≡ (true, s₁))
      × (start s₁ p ≡ (true, s₂))
      × (s₂.active_timer_list ≡ p)
      × (link s₂.pool p ≡ p)
      × ((ys : List Ptr) → ¬ Chain (link s₂.pool) s₂.active_timer_list ys)
unfolding reset_timer
start-reset s p xs v i =
    let t = reset_timer (s.pool p) in
    let s₁ = set_timer s p t in
    let z = v.chain.1 in
    let at : s₁.pool p ≡ t = update_at s.pool p t p refl in
    let there : (s₁.pool p).id ≢ 0 = λ e. i (sym (ap (λ u. u.id) at) ∙ e) in
    let (first, next) = link-started s₁ p in
    (
      s₁,
      started s₁ p,
      reset-done s p z i,
      start-started s₁ p (not_refused s₁ p z there) (ap (λ u. is_running u.state) at),
      first,
      next ∙ v.chain.0,
      λ ys c.
          Chain-loop (link (started s₁ p).pool) p ys z (next ∙ v.chain.0)
            (subst (λ a. Chain (link (started s₁ p).pool) a ys) first c),
    )
