-- ===== src/Sync/Sem/Counting.antt =====
-- What a semaphore grants: it never lets more tasks through than its count and the posts allow.
use smart_os.Base.{
  ℕ, ◌+◌, ◌-◌, ◌≤◌, ◌<◌, ◌≡◌, ◌≢◌, refl, inl, inr, ap, ◌∙◌, sym, subst, Bool, false, Option, none,
  some, List, [], ◌∷◌, Ptr, null, arith, ltb, ==_ne, if◌then◌else◌, Bool-cases,
}
use smart_os.Base.Chain.{update_at}
use smart_os.Sync.{ok, is_ok, Semaphore, System, set_semaphore, enter, leave}
use smart_os.Sync.Sem.{sem_try_wait, sem_post}

-- A semaphore without waiting tasks whose count is within its bound.
pub record IsOpen (v : Semaphore) : Type 0 where
  pub none_waits : v.wait_list ≡ null
  pub bounded : v.count ≤ v.max_count

none_left : (n : ℕ) → ltb 0 n ≡ false → n ≡ n - 1
none_left n h = ground arith

-- Taking one: the status and what becomes of the semaphore.
pub sem_try_wait_lem :
    (s : System) (p : Ptr)
    → p ≢ null
    → (is_ok (sem_try_wait s p).0 ≡ ltb 0 (s.semaphores p).count)
      × ((sem_try_wait s p).1.semaphores p
          ≡ record (s.semaphores p) { count = (s.semaphores p).count - 1 })
unfolding sem_try_wait enter leave
sem_try_wait_lem s p z = elim (Bool-cases (ltb 0 (s.semaphores p).count)) [
  | inl e ↦
      rw (==_ne p null z, e)
        (
          refl,
          update_at s.semaphores p (record (s.semaphores p) { count = (s.semaphores p).count - 1 })
              p refl,
        )
  | inr e ↦
      rw (==_ne p null z, e)
        (refl, ap (λ c. record (s.semaphores p) { count = c }) (none_left (s.semaphores p).count e))
]

-- A post that finds no waiting task: the semaphore afterwards.
posted : Semaphore → Semaphore
posted v = if ltb v.count v.max_count then record v { count = v.count + 1 } else v

sem_post_lem :
    (fuel : ℕ) (s : System) (p : Ptr)
    → p ≢ null
    → (s.semaphores p).wait_list ≡ null
    → (s₁ : System) × (sem_post fuel s p ≡ some (ok, s₁))
      × (s₁.semaphores p ≡ posted (s.semaphores p))
unfolding sem_post posted enter leave
sem_post_lem fuel s p z w =
    elim (Bool-cases (ltb (s.semaphores p).count (s.semaphores p).max_count)) [
      | inl e ↦ (
        leave (
            set_semaphore (enter s) p
              (record (s.semaphores p) { count = (s.semaphores p).count + 1 })),
        rw (==_ne p null z, w, e) refl,
        rw e (
            update_at s.semaphores p
              (record (s.semaphores p) { count = (s.semaphores p).count + 1 }) p refl),
      )
      | inr e ↦ (leave (enter s), rw (==_ne p null z, w, e) refl, rw e refl)
    ]

taken-IsOpen : (v u : Semaphore) → u ≡ record v { count = v.count - 1 } → IsOpen v → IsOpen u
taken-IsOpen v u e o = record {
  none_waits = ap (λ w. w.wait_list) e ∙ o.none_waits;
  bounded = ground (arith, ap (λ w. w.count) e, ap (λ w. w.max_count) e, o.bounded);
}

posted-IsOpen : (v u : Semaphore) → u ≡ posted v → IsOpen v → IsOpen u
unfolding posted
posted-IsOpen v u e o =
    subst (λ w. IsOpen w) (sym e)
      (elim (Bool-cases (ltb v.count v.max_count)) [
        | inl h ↦ rw h (record { none_waits = o.none_waits; bounded = ground arith })
        | inr h ↦ rw h o
      ])

pub data Op : Type 0 where
  take give : Op

abbrev pub gives : List Op → ℕ
gives [] = 0
gives (take ∷ ops) = gives ops
gives (give ∷ ops) = gives ops + 1

-- Runs the operations on one semaphore and counts the takes that are granted.
unfoldable pub run : ℕ → Ptr → List Op → System → Option (ℕ × System)
run fuel p [] s = some (0, s)
run fuel p (take ∷ ops) s =
    let (status, s₁) = sem_try_wait s p in
    elim (run fuel p ops s₁) [
      | none ↦ none
      | some (n, s₂) ↦ some (if is_ok status then n + 1 else n, s₂)
    ]
run fuel p (give ∷ ops) s = elim (sem_post fuel s p) [
  | none ↦ none
  | some (status, s₁) ↦ run fuel p ops s₁
]

run_give :
    (fuel : ℕ) (p : Ptr) (ops : List Op) (s s₁ : System)
    → sem_post fuel s p ≡ some (ok, s₁)
    → run fuel p (give ∷ ops) s ≡ run fuel p ops s₁
unfolding run
run_give fuel p ops s s₁ e = rw (run, e) refl

take_le :
    (b : Bool) (n g d : ℕ) (v u : Semaphore)
    → b ≡ ltb 0 v.count
    → u ≡ record v { count = v.count - 1 }
    → n + d ≤ u.count + g
    → (if b then n + 1 else n) + d ≤ v.count + g
take_le b n g d v u e f h = ground (arith, ap (λ w. w.count) f)

take_eq :
    (b : Bool) (n g d : ℕ) (v u : Semaphore)
    → b ≡ ltb 0 v.count
    → u ≡ record v { count = v.count - 1 }
    → v.count ≤ v.max_count
    → (u.count + g ≤ u.max_count → n + d ≡ u.count + g)
    → v.count + g ≤ v.max_count
    → (if b then n + 1 else n) + d ≡ v.count + g
take_eq b n g d v u e f o h within =
    ground
      (arith, ap (λ w. w.count) f, h (ground (arith, ap (λ w. w.count) f, ap (λ w. w.max_count) f)))

posted_facts :
    (v : Semaphore)
    → ((posted v).count ≤ v.count + 1)
      × ((posted v).max_count ≡ v.max_count)
      × (v.count < v.max_count → (posted v).count ≡ v.count + 1)
unfolding posted
posted_facts v = ground arith

give_le :
    (n g d : ℕ) (v u : Semaphore) → u ≡ posted v → n + d ≤ u.count + g → n + d ≤ v.count + (g + 1)
give_le n g d v u f h = omega (arith, ap (λ w. w.count) f, (posted_facts v).0)

give_eq :
    (n g d : ℕ) (v u : Semaphore)
    → u ≡ posted v
    → (u.count + g ≤ u.max_count → n + d ≡ u.count + g)
    → v.count + (g + 1) ≤ v.max_count
    → n + d ≡ v.count + (g + 1)
give_eq n g d v u f h within =
    let c = ap (λ w. w.count) f ∙ (posted_facts v).2 (omega arith) in
    let m = ap (λ w. w.max_count) f ∙ (posted_facts v).1 in h (omega arith) ∙ omega arith

-- A run of takes and posts on a semaphore that no task waits for returns, whatever its length. The takes
-- that are granted and the count that is left never exceed the count at the start and the posts; they
-- equal it if the posts stay within the bound; and the count is within its bound at the end.
pub run-grants :
    (fuel : ℕ) (p : Ptr) (ops : List Op) (s : System)
    → p ≢ null
    → IsOpen (s.semaphores p)
    → (n : ℕ) × (s₁ : System) × (run fuel p ops s ≡ some (n, s₁))
      × IsOpen (s₁.semaphores p)
      × (n + (s₁.semaphores p).count ≤ (s.semaphores p).count + gives ops)
      × ((s.semaphores p).count + gives ops ≤ (s.semaphores p).max_count
          → n + (s₁.semaphores p).count ≡ (s.semaphores p).count + gives ops)
unfolding run
run-grants fuel p [] s z o = (0, s, refl, o, omega arith, λ h. omega arith)
run-grants fuel p (take ∷ ops) s z o =
    let (status, after) = sem_try_wait_lem s p z in
    let g = gives ops in
    let (n, s₂, e, o₂, le, eq) = run-grants fuel p ops (sem_try_wait s p).1 z (
      taken-IsOpen (s.semaphores p) ((sem_try_wait s p).1.semaphores p) (sem_try_wait_lem s p z).1
        o) in
    let d = (s₂.semaphores p).count in
    (
      if is_ok (sem_try_wait s p).0 then n + 1 else n,
      s₂,
      rw e refl,
      o₂,
      take_le (is_ok (sem_try_wait s p).0) n g d (s.semaphores p)
          ((sem_try_wait s p).1.semaphores p) status after le,
      take_eq (is_ok (sem_try_wait s p).0) n g d (s.semaphores p)
          ((sem_try_wait s p).1.semaphores p) status after o.bounded eq,
    )
run-grants fuel p (give ∷ ops) s z o =
    let (s₁, done, after) = sem_post_lem fuel s p z o.none_waits in
    let g = gives ops in
    let (n, s₂, e, o₂, le, eq) =
      run-grants fuel p ops s₁ z (posted-IsOpen (s.semaphores p) (s₁.semaphores p) after o) in
    let d = (s₂.semaphores p).count in
    (
      n,
      s₂,
      run_give fuel p ops s s₁ done ∙ e,
      o₂,
      give_le n g d (s.semaphores p) (s₁.semaphores p) after le,
      give_eq n g d (s.semaphores p) (s₁.semaphores p) after eq,
    )
