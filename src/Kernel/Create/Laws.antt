-- ===== src/Kernel/Create/Laws.antt =====
-- A created task: its stack, its guard, its place in the task list.
use smart_os.Base.{
  ℕ, zero, suc, ◌+◌, ◌-◌, ◌*◌, ◌%◌, ◌^◌, ◌≤◌, ◌<◌, ◌≡◌, ◌≢◌, refl, true, false, List, [], ◌∷◌, Ptr,
  null, arith, length, get_or, u32, sub_u32, max_u32, ltb, if◌then◌else◌, ap, ◌∙◌, none, some,
}
use smart_os.Base.Chain.{has, update, Chain, Chain-frame}
use smart_os.Kernel.State.{ready, Task, Kernel, link}
use smart_os.Kernel.Critical.{enter_critical, exit_critical}
use smart_os.Kernel.Schedule.{guard_ok, schedule}
use smart_os.Kernel.Schedule.Keeps.{stuck}
use smart_os.Kernel.Schedule.Edf.Aperiodic.{schedule_never_aperiodic}
use smart_os.Kernel.Create.{
  align_down, push_words, frame, hw_stack_init, fresh_task, stack_guard_init, task_create,
}

align_down_lem : (n p : ℕ) → p < 2 ^ 32 → p % 8 ≤ n → align_down n p ≡ p - p % 8
unfolding align_down
align_down_lem zero p h l = omega arith
align_down_lem (suc n) p h l = ground (arith, align_down_lem n (p - 1), back)
  where
    back : 0 < p → (p + 2 ^ 32 - 1) % 2 ^ 32 ≡ p - 1
    back pos = omega arith

-- Pushing writes only below the stack pointer.
push_words_above :
    (ws : List ℕ) (mem : Ptr → ℕ) (p a : Ptr)
    → p < 2 ^ 32
    → 4 * length ws ≤ p
    → p ≤ a
    → (push_words ws mem p).0 a ≡ mem a
unfolding push_words
push_words_above [] mem p a s h l = refl
push_words_above (w ∷ ws) mem p a s h l =
    let down : (p + 2 ^ 32 - 4) % 2 ^ 32 ≡ p - 4 = omega arith in
    push_words_above ws (update mem (sub_u32 p 4) w) (sub_u32 p 4) a (omega arith) (omega arith)
      (omega arith)
    ∙ ground arith

push_words_sp :
    (ws : List ℕ) (mem : Ptr → ℕ) (p : ℕ)
    → p < 2 ^ 32
    → 4 * length ws ≤ p
    → (push_words ws mem p).1 ≡ p - 4 * length ws
unfolding push_words
push_words_sp [] mem p s h = omega arith
push_words_sp (w ∷ ws) mem p s h =
    push_words_sp ws (update mem (sub_u32 p 4) w) (sub_u32 p 4) (omega arith) (omega arith)
    ∙ omega arith

-- The words stand below the old stack pointer, the first one highest.
push_words_reads :
    (ws : List ℕ) (mem : Ptr → ℕ) (p i : ℕ)
    → p < 2 ^ 32
    → 4 * length ws ≤ p
    → i < length ws
    → (push_words ws mem p).0 (p - 4 * (i + 1)) ≡ get_or ws i 0
unfolding push_words
push_words_reads [] mem p i s h l = absurd (omega arith)
push_words_reads (w ∷ ws) mem p zero s h l =
    push_words_above ws (update mem (sub_u32 p 4) w) (sub_u32 p 4) (p - 4 * (0 + 1)) (omega arith)
      (omega arith) (omega arith)
    ∙ written
  where
    place : sub_u32 p 4 ≡ p - 4 * (0 + 1)
    place = omega arith

    written : update mem (sub_u32 p 4) w (p - 4 * (0 + 1)) ≡ w
    written = ground (arith, place)
push_words_reads (w ∷ ws) mem p (suc i) s h l =
    ap (push_words ws (update mem (sub_u32 p 4) w) (sub_u32 p 4)).0 place
    ∙ push_words_reads ws (update mem (sub_u32 p 4) w) (sub_u32 p 4) i (omega arith) (omega arith)
        (omega arith)
  where
    place : p - 4 * (suc i + 1) ≡ sub_u32 p 4 - 4 * (i + 1)
    place = omega arith

-- `hw_stack_init` leaves the stack pointer 64 bytes below where it was given, and from there upwards
-- stand R4 to R11, R0 with the parameter, R1, R2, R3, R12, LR, the entry with its Thumb bit, and xPSR.
pub hw_stack_init_lem :
    (entry parameter : ℕ) (top : Ptr) (mem : Ptr → ℕ) (i : ℕ)
    → top < 2 ^ 32
    → 64 ≤ top
    → i < 16
    → let (mem', sp) = hw_stack_init entry parameter top mem in
      (sp ≡ top - 64) × (mem' (top - 4 * (i + 1)) ≡ get_or (frame entry parameter) i 0)
unfolding hw_stack_init frame
hw_stack_init_lem entry parameter top mem i small room l = (
  push_words_sp (frame entry parameter) mem top small room,
  push_words_reads (frame entry parameter) mem top i small room l,
)

unlisted_ne : (x a : Ptr) (xs : List Ptr) → has x xs ≡ false → has a xs ≡ true → a ≢ x
unlisted_ne x a xs out i e = ground (arith, ap (λ c. has c xs) e)

-- What a caller of `smart_task_create` has to provide.
pub record Fits (k : Kernel) (task stack : Ptr) (stack_size : ℕ) (xs : List Ptr) : Type 0 where
  pub task_ne : task ≢ null
  pub unlisted : has task xs ≡ false
  pub stack_pos : 0 < stack
  pub stack_high : stack + stack_size < 2 ^ 32
  pub listed : Chain (link k.tasks) k.task_list xs
  pub shallow : k.critical_nesting + 1 < 2 ^ 32

module _ (k : Kernel) (task entry param stack : Ptr) (stack_size period relative_deadline : ℕ) where
  abbrev created : Kernel
  created = task_create k task entry param stack stack_size period relative_deadline

  created_fields :
      task ≢ null
      → 0 < stack
      → ((created.tasks task).next ≡ k.task_list)
        × ((created.tasks task).state ≡ ready)
        × ((created.tasks task).arrival ≡ k.os_tick)
        × ((created.tasks task).period ≡ period)
        × ((created.tasks task).deadline
            ≡ (if ltb 0 period then u32 (k.os_tick + relative_deadline) else max_u32))
        × (created.task_list ≡ task)
        × (guard_ok created task ≡ true)
  unfolding task_create fresh_task stack_guard_init guard_ok enter_critical exit_critical
  created_fields n s = ground arith

  created_others : (q : Ptr) → q ≢ task → created.tasks q ≡ k.tasks q
  unfolding task_create fresh_task stack_guard_init enter_critical exit_critical
  created_others q n = ground arith

  created_nesting : k.critical_nesting + 1 < 2 ^ 32 → created.critical_nesting ≡ k.critical_nesting
  unfolding task_create stack_guard_init enter_critical exit_critical
  created_nesting h = ground arith

-- `smart_task_create` puts the new task in front of the task list, READY, released now, its deadline the
-- relative one from now if it has a period and `0xFFFFFFFF` otherwise, and its stack guard intact; no
-- other task changes, and the call ends at the nesting depth at which it began.
pub task_create_lem :
    (k : Kernel) (task entry param stack : Ptr) (stack_size period relative_deadline : ℕ)
    (xs : List Ptr)
    → Fits k task stack stack_size xs
    → let k' = task_create k task entry param stack stack_size period relative_deadline in
      Chain (link k'.tasks) k'.task_list (task ∷ xs)
      × ((k'.tasks task).state ≡ ready)
      × ((k'.tasks task).arrival ≡ k.os_tick)
      × ((k'.tasks task).deadline
          ≡ (if ltb 0 period then u32 (k.os_tick + relative_deadline) else max_u32))
      × (guard_ok k' task ≡ true)
      × ((q : Ptr) → q ≢ task → k'.tasks q ≡ k.tasks q)
      × (k'.critical_nesting ≡ k.critical_nesting)
task_create_lem k task entry param stack stack_size period relative_deadline xs v =
    let (next, state, arrival, _, deadline, first, guarded) =
      created_fields k task entry param stack stack_size period relative_deadline v.task_ne
        v.stack_pos in
    let others = created_others k task entry param stack stack_size period relative_deadline in
    (
      (
        first,
        v.task_ne,
        rw next (
            Chain-frame (link k.tasks)
              (link
                (task_create k task entry param stack stack_size period relative_deadline).tasks)
              k.task_list xs
              (λ a i. ap (λ (t : Task). t.next) (others a (unlisted_ne task a xs v.unlisted i)))
              v.listed),
      ),
      state,
      arrival,
      deadline,
      guarded,
      others,
      created_nesting k task entry param stack stack_size period relative_deadline v.shallow,
    )

-- A task that is created without a period, and is not the idle task, is not what the scheduler chooses,
-- although it is READY and whether or not any other task is; this is so too where the switch to its choice
-- meets a broken stack guard and the call does not return.
pub task_create_starved :
    (fuel : ℕ) (k : Kernel) (task entry param stack : Ptr) (stack_size relative_deadline : ℕ)
    (xs : List Ptr)
    → Fits k task stack stack_size xs
    → task ≢ (task_create k task entry param stack stack_size 0 relative_deadline).idle_task
    → suc (length xs) < fuel
    → let k' = task_create k task entry param stack stack_size 0 relative_deadline in
      ((k'.tasks task).state ≡ ready)
      × (k'' : Kernel) × (schedule fuel k' ≡ (if stuck k' k''.next_task then none else some k''))
      × (k''.next_task ≢ task)
task_create_starved fuel k task entry param stack stack_size relative_deadline xs v ne h =
    let (chain, state, _, deadline, _, _, _) =
      task_create_lem k task entry param stack stack_size 0 relative_deadline xs v in
    let k' = task_create k task entry param stack stack_size 0 relative_deadline in
    let (k'', e, n) = schedule_never_aperiodic fuel k' (task ∷ xs) task chain h ne deadline in
    (state, k'', e, n)
