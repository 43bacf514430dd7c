-- ===== src/Kernel/Critical.antt =====
-- `smart_enter_critical` and `smart_exit_critical`: nested masking of interrupts.
pub mod Nesting
use smart_os.Base.{ℕ, ◌+◌, ◌-◌, true, false, u32, ltb, ◌==◌, if◌then◌else◌}
use smart_os.Kernel.State.{Kernel}

unfoldable pub enter_critical : Kernel → Kernel
enter_critical k = record k { irq_enabled = false; critical_nesting = u32 (k.critical_nesting + 1) }

unfoldable pub exit_critical : Kernel → Kernel
exit_critical k =
    if ltb 0 k.critical_nesting
    then record k {
      critical_nesting = k.critical_nesting - 1;
      irq_enabled = if k.critical_nesting - 1 == 0 then true else k.irq_enabled;
    }
    else k
