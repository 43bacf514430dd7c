-- ===== src/Timer/Pool.antt =====
-- The list of active timers: what starting and stopping a timer does to it.
pub mod Start
pub mod Reset
use smart_os.Base.{
  ℕ, zero, suc, ◌+◌, ◌-◌, ◌%◌, ◌^◌, ◌≤◌, ◌<◌, ◌≡◌, ◌≢◌, refl, ◌⊎◌, inl, inr, Bool, true, false, not,
  ◌||◌, Option, none, some, List, [], ◌∷◌, Ptr, null, arith, length, ◌==◌, if◌then◌else◌,
  Bool-cases, ==_refl, ==_ne, subst, sym, ap, ◌∙◌,
}
use native.Mathlib.Decide.{ℕ_discrete}
use smart_os.Base.Chain.{
  update, has, Distinct, Chain, Chain-frame, Chain-ne_null, remove, has-remove_self, has-remove_ne,
  remove-Distinct, length-remove,
}
use smart_os.Base.Chain.Unlink.{Before, Before-here, Before-later, has_ne, remove_ne, remove_eq}
use smart_os.Timer.{
  Timer, Timers, Stats, TimerState, running, stopped, is_running, link, set_timer, find_prev,
  unlink, refused, start, stop, then_do,
}

-- The active list is the chain of the distinct timers `xs`; they are the running ones, and are counted.
pub record IsActive (s : Timers) (xs : List Ptr) : Type 0 where
  pub chain : Chain (link s.pool) s.active_timer_list xs
  pub distinct : Distinct xs
  pub listed : (p : Ptr) → is_running (s.pool p).state ≡ has p xs
  pub counted : s.stats.active_timers ≡ length xs
  pub few : length xs < 2 ^ 31

-- Two control blocks that differ at most in their link.
pub record Relinked (t u : Timer) : Type 0 where
  pub id : t.id ≡ u.id
  pub type : t.type ≡ u.type
  pub state : t.state ≡ u.state
  pub period_ms : t.period_ms ≡ u.period_ms
  pub remaining_ms : t.remaining_ms ≡ u.remaining_ms
  pub callback : t.callback ≡ u.callback
  pub callback_arg : t.callback_arg ≡ u.callback_arg

find_prev-Before :
    (fuel : ℕ) (pool : Ptr → Timer) (a x : Ptr) (xs : List Ptr)
    → Chain (link pool) x (x ∷ xs)
    → Distinct (x ∷ xs)
    → has a xs ≡ true
    → length xs < fuel
    → (prev : Ptr) × (find_prev fuel pool x a ≡ some prev) × Before (link pool) a x xs prev
unfolding find_prev
find_prev-Before zero pool a x xs c d i h = absurd (omega arith)
find_prev-Before (suc fuel) pool a x [] c d i h = absurd (ground arith)
find_prev-Before (suc fuel) pool a x (y ∷ ys) c d i h = elim (ℕ_discrete (pool x).next a) [
  | yes e ↦ (x, ground (arith, c.1), Before-here (link pool) a x (y ∷ ys) c d i e)
  | no n ↦
      let (prev, e, b) =
        find_prev-Before fuel pool a y ys (refl, c.2.1, c.2.2) d.1 (ground (arith, c.2.0))
          (omega arith) in
      (
        prev,
        ground (arith, e, c.1, c.2.0, ap (λ q. find_prev fuel pool q a) c.2.0),
        Before-later (link pool) a x y ys prev c d (λ z. n (c.2.0 ∙ z)) b,
      )
]

-- What taking a timer off the active list does.
pub record Unlinked (s : Timers) (a : Ptr) (xs : List Ptr) (s₁ : Timers) : Type 0 where
  pub chain : Chain (link s₁.pool) s₁.active_timer_list (remove a xs)
  pub stats : s₁.stats ≡ s.stats
  pub blocks : (q : Ptr) → Relinked (s₁.pool q) (s.pool q)

-- Writing one link, as a change of the links and as a change of the blocks.
pub relink : (pool : Ptr → Timer) (p v : Ptr) → Ptr → Timer
relink pool p v = update pool p (record (pool p) { next = v })

if_next : (b : Bool) (t u : Timer) → (if b then t else u).next ≡ (if b then t.next else u.next)
if_next true t u = refl
if_next false t u = refl

relink-link :
    (pool : Ptr → Timer) (p v q : Ptr) → link (relink pool p v) q ≡ update (link pool) p v q
unfolding relink
relink-link pool p v q = if_next (p == q) (record (pool p) { next = v }) (pool q)

Relinked_next : (t : Timer) (v : Ptr) → Relinked (record t { next = v }) t
Relinked_next t v = record {
  id = refl;
  type = refl;
  state = refl;
  period_ms = refl;
  remaining_ms = refl;
  callback = refl;
  callback_arg = refl;
}

Relinked_refl : (t : Timer) → Relinked t t
Relinked_refl t = Relinked_next t t.next

relink-Relinked : (pool : Ptr → Timer) (p v q : Ptr) → Relinked (relink pool p v q) (pool q)
unfolding relink
relink-Relinked pool p v q = elim (ℕ_discrete q p) [
  | yes e ↦ rw (e, relink, update, ==_refl p) (Relinked_next (pool p) v)
  | no n ↦ rw (relink, update, ==_ne p q (λ z. n (sym z))) (Relinked_refl (pool q))
]

unlink-front :
    (s : Timers) (a x : Ptr) (xs : List Ptr)
    → Chain (link s.pool) s.active_timer_list (x ∷ xs)
    → s.active_timer_list ≡ a
    → Unlinked s a (x ∷ xs) (record s { active_timer_list = (s.pool a).next })
unlink-front s a x xs c e = record {
  chain =
      rw (remove_eq a x xs (sym e ∙ c.0))
        (subst (λ z. Chain (link s.pool) (s.pool z).next xs) (sym c.0 ∙ e) c.2);
  stats = refl;
  blocks = λ q. Relinked_refl (s.pool q);
}

unlink-behind :
    (s : Timers) (a x prev : Ptr) (xs : List Ptr)
    → s.active_timer_list ≡ x
    → a ≢ x
    → Before (link s.pool) a x xs prev
    → Unlinked s a (x ∷ xs) (record s { pool = relink s.pool prev (s.pool a).next })
unlink-behind s a x prev xs e n b = record {
  chain =
      Chain-frame (update (link s.pool) prev (s.pool a).next)
        (link (relink s.pool prev (s.pool a).next)) s.active_timer_list (remove a (x ∷ xs))
        (λ q h. relink-link s.pool prev (s.pool a).next q)
        (rw (remove_ne a x xs n, e) b.redirected);
  stats = refl;
  blocks = relink-Relinked s.pool prev (s.pool a).next;
}

unlink_first :
    (fuel : ℕ) (s : Timers) (a : Ptr)
    → s.active_timer_list ≡ a
    → unlink fuel s a ≡ some (record s { active_timer_list = (s.pool a).next })
unfolding unlink
unlink_first fuel s a e = rw (e, ==_refl a) refl

unlink_found :
    (fuel : ℕ) (s : Timers) (a prev : Ptr)
    → s.active_timer_list ≢ a
    → find_prev fuel s.pool s.active_timer_list a ≡ some prev
    → prev ≢ null
    → unlink fuel s a ≡ some (record s { pool = relink s.pool prev (s.pool a).next })
unfolding unlink relink
unlink_found fuel s a prev n found z =
    rw (==_ne s.active_timer_list a n, found, ==_ne prev null z) refl

pub unlink-Unlinked :
    (fuel : ℕ) (s : Timers) (a : Ptr) (xs : List Ptr)
    → Chain (link s.pool) s.active_timer_list xs
    → Distinct xs
    → has a xs ≡ true
    → length xs ≤ fuel
    → (s₁ : Timers) × (unlink fuel s a ≡ some s₁) × Unlinked s a xs s₁
unlink-Unlinked fuel s a [] c d i h = absurd (ground arith)
unlink-Unlinked fuel s a (x ∷ xs) c d i h = elim (ℕ_discrete s.active_timer_list a) [
  | yes e ↦ (
    record s { active_timer_list = (s.pool a).next },
    unlink_first fuel s a e,
    unlink-front s a x xs c e,
  )
  | no n ↦
      let (prev, found, b) =
        find_prev-Before fuel s.pool a x xs (refl, c.1, c.2) d (ground (arith, c.0))
          (omega arith) in
      (
        record s { pool = relink s.pool prev (s.pool a).next },
        unlink_found fuel s a prev n
            (subst (λ q. find_prev fuel s.pool q a ≡ some prev) (sym c.0) found)
            (Chain-ne_null (link s.pool) s.active_timer_list prev (x ∷ xs) c b.among),
        unlink-behind s a x prev xs c.0 (λ z. n (c.0 ∙ sym z)) b,
      )
]
