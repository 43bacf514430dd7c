-- ===== src/Kernel/Critical/Nesting.antt =====
-- Critical sections nest.
use smart_os.Base.{◌+◌, ◌^◌, ◌<◌, ◌≡◌, refl, ◌∙◌, false, arith}
use smart_os.Kernel.State.{Kernel}
use smart_os.Kernel.Critical.{enter_critical, exit_critical}

-- Inside a critical section interrupts are masked.
abbrev pub IsMasked : Kernel → Type 0
IsMasked k = 0 < k.critical_nesting → k.irq_enabled ≡ false

pub enter_critical-IsMasked : (k : Kernel) → IsMasked (enter_critical k)
unfolding enter_critical
enter_critical-IsMasked k h = refl

pub exit_critical-IsMasked : (k : Kernel) → IsMasked k → IsMasked (exit_critical k)
unfolding exit_critical
exit_critical-IsMasked k m h = ground (arith, m)

-- Code that enters and leaves critical sections in pairs.
pub data Bracketed : Kernel → Kernel → Type 0 where
  plain : (k : Kernel) → Bracketed k k
  bracket :
      {k j : Kernel}
      → k.critical_nesting + 1 < 2 ^ 32
      → Bracketed (enter_critical k) j
      → Bracketed k (exit_critical j)
  then : {i j k : Kernel} → Bracketed i j → Bracketed j k → Bracketed i k

pub exit-enter :
    (k j : Kernel)
    → k.critical_nesting + 1 < 2 ^ 32
    → j.critical_nesting ≡ (enter_critical k).critical_nesting
    → (exit_critical j).critical_nesting ≡ k.critical_nesting
unfolding enter_critical exit_critical
exit-enter k j h e = ground arith

exit-masked :
    (k j : Kernel)
    → k.critical_nesting + 1 < 2 ^ 32
    → j.critical_nesting ≡ (enter_critical k).critical_nesting
    → (0 < (enter_critical k).critical_nesting → j.irq_enabled ≡ (enter_critical k).irq_enabled)
    → 0 < k.critical_nesting
    → (exit_critical j).irq_enabled ≡ false
unfolding enter_critical exit_critical
exit-masked k j h e same pos = ground (arith, same)

-- Code whose critical sections come in pairs ends at the nesting depth at which it began, and inside
-- an outer critical section it never unmasks interrupts.
pub Bracketed-nesting :
    {k j : Kernel}
    → Bracketed k j
    → IsMasked k
    → (j.critical_nesting ≡ k.critical_nesting)
      × (0 < k.critical_nesting → j.irq_enabled ≡ k.irq_enabled)
      × IsMasked j
Bracketed-nesting (plain k) m = (refl, λ h. refl, m)
Bracketed-nesting (bracket {k} {j} h b) m =
    let (e, same, masked) = Bracketed-nesting b (enter_critical-IsMasked k) in
    (
      exit-enter k j h e,
      λ pos. ground (arith, exit-masked k j h e same, m),
      exit_critical-IsMasked j masked,
    )
Bracketed-nesting (then {i} {j} {k} b c) m =
    let (e, same, masked) = Bracketed-nesting b m in
    let (e', same', masked') = Bracketed-nesting c masked in
    (e' ∙ e, (λ pos. same' (omega (arith, e)) ∙ same pos), masked')

pub exit_critical_keeps :
    (k : Kernel)
    → ((exit_critical k).tasks ≡ k.tasks)
      × ((exit_critical k).next_task ≡ k.next_task)
      × ((exit_critical k).current_task ≡ k.current_task)
      × ((exit_critical k).os_tick ≡ k.os_tick)
      × ((exit_critical k).task_list ≡ k.task_list)
      × ((exit_critical k).idle_task ≡ k.idle_task)
      × ((exit_critical k).mem ≡ k.mem)
unfolding exit_critical
exit_critical_keeps k = ground arith
