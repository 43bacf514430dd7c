-- ===== src/Kernel/Schedule/Switch.antt =====
-- The statistics that `smart_schedule` keeps of the task that it switches out.
use smart_os.Base.{
  ℕ, ◌+◌, ◌*◌, ◌/◌, ◌^◌, ◌≤◌, ◌<◌, ◌≡◌, ◌&&◌, arith, ltb, u32, sub_u32, if◌then◌else◌,
}
use smart_os.Kernel.State.{Task}
use smart_os.Kernel.Schedule.{ema, update_watermark, switch_out}

-- While neither number needs more than 29 bits, the prediction lies between the measured time and the
-- old prediction, and has the exact value of the weighted mean.
pub ema_bounds :
    (e a : ℕ)
    → e < 2 ^ 29
    → a < 2 ^ 29
    → 0 < a
    → (ema e a ≡ (e + 7 * a) / 8)
      × ((e ≤ a → (e ≤ ema e a) × (ema e a ≤ a)))
      × ((a ≤ e → (a ≤ ema e a) × (ema e a ≤ e)))
unfolding ema
ema_bounds e a he ha pos = ground arith

ema-le : (e a m : ℕ) → e < 2 ^ 29 → a ≤ m → m < 2 ^ 29 → ema e a ≤ (if ltb m e then e else m)
unfolding ema
ema-le e a m he ha hm = ground arith

watermark_keeps :
    (t : Task)
    → ((update_watermark t).last_exec_time ≡ t.last_exec_time)
      × ((update_watermark t).avg_exec_time ≡ t.avg_exec_time)
      × ((update_watermark t).max_exec_time ≡ t.max_exec_time)
      × ((update_watermark t).stack_size ≡ t.stack_size)
      × ((update_watermark t).min_free_stack ≤ t.min_free_stack)
unfolding update_watermark
watermark_keeps t = ground arith

-- A task's statistics are in order: no time above the maximum, and no watermark above the stack.
pub record IsTracked (t : Task) : Type 0 where
  pub last_le : t.last_exec_time ≤ t.max_exec_time
  pub avg_le : t.avg_exec_time ≤ t.max_exec_time
  pub max_small : t.max_exec_time < 2 ^ 29
  pub stack_le : t.min_free_stack ≤ t.stack_size

-- A task that ran for less than `2 ^ 29` ticks keeps its statistics in order when it is switched out:
-- its last time is the time since it was switched in, also when the tick has wrapped since, and the
-- watermark does not rise.
pub switch_out-IsTracked :
    (now : ℕ) (t : Task)
    → sub_u32 now t.exec_start_time < 2 ^ 29
    → IsTracked t
    → IsTracked (switch_out now t)
      × ((switch_out now t).last_exec_time ≡ sub_u32 now t.exec_start_time)
      × ((switch_out now t).min_free_stack ≤ t.min_free_stack)
unfolding switch_out
switch_out-IsTracked now t small v =
    let e = sub_u32 now t.exec_start_time in
    let u = record t {
      last_exec_time = e;
      max_exec_time = if ltb t.max_exec_time e then e else t.max_exec_time;
      avg_exec_time = ema e t.avg_exec_time;
      deadline_miss_count =
          if ltb t.deadline now && ltb 0 t.period
          then u32 (t.deadline_miss_count + 1)
          else t.deadline_miss_count;
    } in
    ground (arith, watermark_keeps u, ema-le e t.avg_exec_time t.max_exec_time)
