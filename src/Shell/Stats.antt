-- ===== src/Shell/Stats.antt =====
-- `cmd_stats`: the analysis of the tasks' times, and when it reports an anomaly. A signed word is its pattern of 32
-- bits. The product of the deviation and 100 wraps; its division by the average, which is unsigned, is unsigned.
pub mod Warnings
use smart_os.Base.{
  ℕ, ◌-◌, ◌*◌, ◌/◌, ◌^◌, ◌≤◌, ◌<◌, ◌≡◌, Bool, true, ◌&&◌, ◌||◌, List, [], ◌∷◌, ◌++◌, u32, sub_u32,
  ltb, leb, if◌then◌else◌, arith, Bool-cases, inl, inr,
}
use native.Mathlib.Nat.{le-div_iff_mul-le, div-lt_iff_lt-mul, div-le_self}
use smart_os.Shell.Console.{Output, for_each, print, hex, Exit, success}
use smart_os.Kernel.State.{Kernel}
use smart_os.Kernel.Info.{TaskInfo, get_task_list}

-- The sign of a word read as an `int32_t`, and its magnitude, as the code computes it.
abbrev pub is_negative : ℕ → Bool
is_negative w = leb (2 ^ 31) w

abbrev pub magnitude : ℕ → ℕ
magnitude w = if is_negative w then sub_u32 0 w else w

abbrev pub deviation : TaskInfo → ℕ
deviation t = sub_u32 t.last_exec_time t.avg_exec_time

abbrev pub deviation_percent : TaskInfo → ℕ
deviation_percent t = u32 (deviation t * 100) / t.avg_exec_time

-- `deviation_percent > 50 || deviation_percent < -50`
abbrev pub is_anomaly : TaskInfo → Bool
is_anomaly t =
    let p = deviation_percent t in
    ltb 50 p && ltb p (2 ^ 31) || leb (2 ^ 31) p && ltb p (2 ^ 32 - 50)

abbrev plus : ℕ → List Output
plus w = if is_negative w then [] else print "+" ∷ []

abbrev pub anomaly_warning : Output
anomaly_warning = print "  [AI WARNING] Execution time anomaly detected!\n"

pub deviation_report : TaskInfo → List Output
deviation_report t =
    let d = deviation t in
    if ltb 0 t.avg_exec_time
    then print "  Deviation: " ∷ plus d
      ++ hex (magnitude d) ∷ print "ms (" ∷ plus d
      ++ hex (magnitude (deviation_percent t))
        ∷ print "%)\n"
        ∷ (if is_anomaly t then anomaly_warning ∷ [] else [])
    else []

abbrev pub utilization : TaskInfo → ℕ
utilization t = u32 (t.avg_exec_time * 100) / t.period

pub deadline_report : TaskInfo → List Output
deadline_report t =
    let misses =
      if ltb 0 t.deadline_miss_count
      then print " [AI ALERT] Real-time constraint violated!\n"
      else print " [OK]\n" in
    let load =
      if ltb 80 (utilization t)
      then print "  [AI WARNING] High CPU load, may miss deadline!\n" ∷ []
      else [] in
    let predicted =
      if ltb 0 t.avg_exec_time
      then print "  CPU Utilization (Predicted): " ∷ hex (utilization t) ∷ print "%\n" ∷ load
      else [] in
    if ltb 0 t.period
    then print "  Period="
      ∷ hex t.period
      ∷ print "ms, Deadline Misses="
      ∷ hex t.deadline_miss_count
      ∷ misses
      ∷ predicted
    else []

pub stack_report : TaskInfo → List Output
stack_report t =
    let used = sub_u32 t.stack_size t.min_free_stack in
    let percent = u32 (used * 100) / t.stack_size in
    print "  Stack: "
    ∷ hex used
    ∷ print "/"
    ∷ hex t.stack_size
    ∷ print " ("
    ∷ hex percent
    ∷ print "%)\n"
    ∷ (if ltb 80 percent
        then print "  [AI WARNING] Stack usage high, risk of overflow!\n" ∷ []
        else [])

pub task_report : TaskInfo → List Output
unfolding deviation_report deadline_report stack_report
task_report t =
    print "Task 0x"
      ∷ hex t.entry
      ∷ print ":\n"
      ∷ print "  Exec Time: Last="
      ∷ hex t.last_exec_time
      ∷ print "ms, Predicted(EMA)="
      ∷ hex t.avg_exec_time
      ∷ print "ms, Max="
      ∷ hex t.max_exec_time
      ∷ print "ms\n"
      ∷ deviation_report t
    ++ (deadline_report t ++ (stack_report t ++ print "\n" ∷ []))

pub cmd_stats : Kernel → List Output × Exit
unfolding task_report for_each get_task_list
cmd_stats k = (
  print "\n=== Task Performance Analysis (AI-Powered) ===\n\n"
        ∷ for_each task_report (get_task_list true 10 k)
      ++ print "=== AI Analysis Complete ===\n"
        ∷ print "Algorithm: Exponential Moving Average (EMA) for prediction\n"
        ∷ print "Anomaly Detection: Statistical deviation analysis\n\n"
        ∷ [],
  success,
)

-- For times below 2^24 and an average of at least 2: a task is reported as an anomaly exactly when its last
-- time is below the average, by however little, or above it by more than 50 per cent, rounded down.
pub is_anomaly_lem :
    (t : TaskInfo)
    → 2 ≤ t.avg_exec_time
    → t.avg_exec_time < 2 ^ 24
    → t.last_exec_time < 2 ^ 24
    → is_anomaly t ≡ (
        ltb t.last_exec_time t.avg_exec_time
        || ltb 50 ((t.last_exec_time - t.avg_exec_time) * 100 / t.avg_exec_time))
is_anomaly_lem t low high last = elim (Bool-cases (ltb t.last_exec_time t.avg_exec_time)) [
  | inl below ↦
      let word : ℕ = u32 (deviation t * 100) in
      let less : t.last_exec_time < t.avg_exec_time = ground (arith, below) in
      let e : word ≡ 2 ^ 32 - (t.avg_exec_time - t.last_exec_time) * 100 =
        omega (arith, less, high) in
      let big : 51 ≤ word / t.avg_exec_time =
        (le-div_iff_mul-le {k = t.avg_exec_time} {x = 51} {y = word} (omega (arith, low))).1
          (omega (arith, e, high)) in
      let small : word / t.avg_exec_time < 2 ^ 31 =
        (div-lt_iff_lt-mul {k = t.avg_exec_time} {x = word} {y = 2 ^ 31} (omega (arith, low))).1
          (omega (arith, e, low, less)) in
      ground (arith, below, big, small)
  | inr above ↦
      let least : t.avg_exec_time ≤ t.last_exec_time = ground (arith, above) in
      let e : u32 (deviation t * 100) ≡ (t.last_exec_time - t.avg_exec_time) * 100 =
        omega (arith, least, last) in
      let small : (t.last_exec_time - t.avg_exec_time) * 100 / t.avg_exec_time < 2 ^ 31 =
        omega
          (arith, div-le_self ((t.last_exec_time - t.avg_exec_time) * 100) t.avg_exec_time, last) in
      rw e (ground (arith, above, small))
]
