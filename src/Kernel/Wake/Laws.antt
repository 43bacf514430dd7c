-- ===== src/Kernel/Wake/Laws.antt =====
-- Which tasks a tick wakes.
use smart_os.Base.{
  ℕ, zero, suc, ◌<◌, ◌≡◌, ◌≢◌, ◌&&◌, ◌||◌, refl, Bool, true, false, some, List, [], ◌∷◌, Ptr, null,
  arith, length, ◌==◌, if◌then◌else◌, ap, ◌∙◌,
}
use native.Mathlib.Decide.{ℕ_discrete}
use smart_os.Base.Chain.{has, update, Chain, Chain-frame, Distinct}
use smart_os.Kernel.State.{ready, Task, link}
use smart_os.Kernel.Wake.{due, wake}

-- A task of the list that is due is made ready; any other stays as it is.
abbrev pub woken : ℕ → List Ptr → (Ptr → Task) → Ptr → Task
woken now xs tasks q =
    if has q xs && due now (tasks q) then record (tasks q) { state = ready } else tasks q

abbrev pub any_due : ℕ → List Ptr → (Ptr → Task) → Bool
any_due now [] tasks = false
any_due now (x ∷ xs) tasks = due now (tasks x) || any_due now xs tasks

abbrev visit : ℕ → Ptr → (Ptr → Task) → Ptr → Task
visit now x tasks =
    if due now (tasks x) then update tasks x (record (tasks x) { state = ready }) else tasks

visit_self :
    (now : ℕ) (x q : Ptr) (tasks : Ptr → Task)
    → q ≡ x
    → visit now x tasks q
      ≡ (if due now (tasks q) then record (tasks q) { state = ready } else tasks q)
visit_self now x q tasks e = ground (arith, ap tasks {x = q} {y = x})

visit_ne : (now : ℕ) (x q : Ptr) (tasks : Ptr → Task) → q ≢ x → visit now x tasks q ≡ tasks q
visit_ne now x q tasks n = ground arith

visit-link : (now : ℕ) (x q : Ptr) (tasks : Ptr → Task) → link (visit now x tasks) q ≡ link tasks q
visit-link now x q tasks = ground (arith, ap tasks {x = q} {y = x})

any_due-frame :
    (now : ℕ) (xs : List Ptr) (f g : Ptr → Task)
    → ((a : Ptr) → has a xs ≡ true → f a ≡ g a)
    → any_due now xs f ≡ any_due now xs g
any_due-frame now [] f g same = refl
any_due-frame now (x ∷ xs) f g same = ground (
  arith,
  same x,
  any_due-frame now xs f g (λ a h. same a (ground arith)),
  ap (due now) {x = f x} {y = g x},
)

not_null : (x : Ptr) → x ≢ null → (x == null) ≡ false
not_null x n = ground arith

apart_ne : (x a : Ptr) (xs : List Ptr) → has x xs ≡ false → has a xs ≡ true → a ≢ x
apart_ne x a xs out i e = ground (arith, ap (λ c. has c xs) e)

woken-visit :
    (now : ℕ) (x q : Ptr) (xs : List Ptr) (tasks : Ptr → Task)
    → has x xs ≡ false
    → woken now xs (visit now x tasks) q ≡ woken now (x ∷ xs) tasks q
woken-visit now x q xs tasks out = elim (ℕ_discrete q x) [
  | yes e ↦ ground (arith, visit_self now x q tasks e, ap (λ c. has c xs) e)
  | no n ↦ ground (arith, visit_ne now x q tasks n)
]

-- On a task list that ends, the loop of `SysTick_Handler` ends too. It makes ready exactly the tasks
-- of the list that wait for a period that has come or whose delay is over, changes no other task, and
-- asks for scheduling exactly when it made one ready (or had been asked to).
pub wake-woken :
    (fuel now : ℕ) (p : Ptr) (tasks : Ptr → Task) (need : Bool) (xs : List Ptr)
    → Chain (link tasks) p xs
    → Distinct xs
    → length xs < fuel
    → (tasks' : Ptr → Task) × (wake fuel now p tasks need
        ≡ some (tasks', any_due now xs tasks || need))
      × ((q : Ptr) → tasks' q ≡ woken now xs tasks q)
unfolding wake
wake-woken zero now p tasks need xs c d h = absurd (omega arith)
wake-woken (suc fuel) now p tasks need [] c d h = (tasks, ground arith, λ q. refl)
wake-woken (suc fuel) now p tasks need (x ∷ xs) c d h =
    let seen = visit now x tasks in
    let apart = λ (a : Ptr) (i : has a xs ≡ true). visit_ne now x a tasks (apart_ne x a xs d.0 i) in
    let chained =
      Chain-frame (link tasks) (link seen) (tasks x).next xs (λ a i. visit-link now x a tasks)
        c.2 in
    let (tasks', e, all) =
      wake-woken fuel now (tasks x).next seen (due now (tasks x) || need) xs chained d.1
        (omega arith) in
    (
      tasks',
      rw (c.0, not_null x c.1)
          (e ∙ ap (λ b. some (tasks', b)) (ground (arith, any_due-frame now xs seen tasks apart))),
      λ q. all q ∙ woken-visit now x q xs tasks d.0,
    )
