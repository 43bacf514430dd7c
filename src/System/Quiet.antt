-- ===== src/System/Quiet.antt =====
-- Timers that do not expire for a number of ticks.
use smart_os.Base.{
  ℕ, suc, ◌≤◌, ◌<◌, ◌≡◌, refl, ap, ◌∙◌, Bool, true, false, List, [], ◌∷◌, Ptr, arith, if◌then◌else◌,
}
use smart_os.Base.Chain.{has, Distinct, Chain, Chain-frame}
use smart_os.Timer.{Timer, Timers}
use smart_os.Timer as Timer
use smart_os.Timer.Tick.{count_down}
use smart_os.Timer.Tick.Quiet.{IsCounted, NoneDue}

-- The running timers are the nodes `ts` of their list, and none expires within `n` ticks.
abbrev pub Later : ℕ → (Ptr → Timer) → List Ptr → Type 0
Later n pool [] = Unit
Later n pool (x ∷ xs) = (n < (pool x).remaining_ms) × Later n pool xs

abbrev pub Quiet : ℕ → Timers → List Ptr → Type 0
Quiet n s ts =
    (s.timer_pool_init ≡ true)
    × Chain (Timer.link s.pool) s.active_timer_list ts
    × Distinct ts
    × Later n s.pool ts

pub Later-le :
    (m n : ℕ) (pool : Ptr → Timer) (ts : List Ptr) → m ≤ n → Later n pool ts → Later m pool ts
Later-le m n pool [] h l = tt
Later-le m n pool (x ∷ xs) h (a, l) = (omega (arith, h, a), Later-le m n pool xs h l)

pub Quiet-le : (m n : ℕ) (s : Timers) (ts : List Ptr) → m ≤ n → Quiet n s ts → Quiet m s ts
Quiet-le m n s ts h (made, c, d, l) = (made, c, d, Later-le m n s.pool ts h l)

pub NoneDue-Later :
    (n : ℕ) (pool : Ptr → Timer) (ts : List Ptr) → Later (suc n) pool ts → NoneDue pool ts
NoneDue-Later n pool [] l = tt
NoneDue-Later n pool (x ∷ xs) (a, l) = (omega (arith, a), NoneDue-Later n pool xs l)

Later-count :
    (n : ℕ) (f g : Ptr → Timer) (ts : List Ptr)
    → ((q : Ptr) → has q ts ≡ true → g q ≡ count_down (f q))
    → Later (suc n) f ts
    → Later n g ts
unfolding count_down
Later-count n f g [] h l = tt
Later-count n f g (x ∷ xs) h (a, l) = (
  rw (h x (ground arith)) (omega (arith, a)),
  Later-count n f g xs (λ q i. h q (ground (arith, i))) l,
)

counted-link : (b : Bool) (t : Timer) → (if b then count_down t else t).next ≡ t.next
unfolding count_down
counted-link true t = refl
counted-link false t = refl

pub Quiet-counted :
    (n : ℕ) (s s' : Timers) (ts : List Ptr) → Quiet (suc n) s ts → IsCounted s ts s' → Quiet n s' ts
Quiet-counted n s s' ts (made, c, d, l) v = (
  v.made ∙ made,
  rw (v.list) (
      Chain-frame (Timer.link s.pool) (Timer.link s'.pool) s.active_timer_list ts
        (λ a i. ap (λ t. t.next) (v.blocks a) ∙ counted-link (has a ts) (s.pool a)) c),
  d,
  Later-count n s.pool s'.pool ts (λ q i. v.blocks q ∙ rw i refl) l,
)
