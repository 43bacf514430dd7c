-- ===== src/Shell/Stats/Warnings.antt =====
-- How often `cmd_stats` prints its warning about a task's time.
use text.Mathlib.Text.{◌==◌ as str_eq}
use smart_os.Base.{
  ℕ, ◌+◌, ◌-◌, ◌*◌, ◌/◌, ◌^◌, ◌≤◌, ◌<◌, ◌≡◌, refl, ap, ap₂, ◌∙◌, Bool, true, ◌&&◌, ◌||◌, ◌⊎◌, inl,
  inr, List, [], ◌∷◌, ◌++◌, ltb, if◌then◌else◌, arith,
}
use smart_os.Kernel.State.{Kernel}
use smart_os.Kernel.Info.{TaskInfo, get_task_list}
use smart_os.Shell.Console.{Output, for_each, print, print_bytes, hex, putc}
use smart_os.Shell.Stats.{
  is_anomaly, is_anomaly_lem, deviation_report, deadline_report, stack_report, task_report,
  cmd_stats,
}

-- The number of calls that print the warning.
pub warnings : List Output → ℕ
warnings [] = 0
warnings (print text ∷ out) =
    (if str_eq text "  [AI WARNING] Execution time anomaly detected!\n" then 1 else 0)
    + warnings out
warnings (print_bytes cs ∷ out) = warnings out
warnings (hex n ∷ out) = warnings out
warnings (putc c ∷ out) = warnings out

warnings-append : (xs ys : List Output) → warnings (xs ++ ys) ≡ warnings xs + warnings ys
unfolding warnings
warnings-append [] ys = omega arith
warnings-append (print text ∷ xs) ys = omega (arith, warnings-append xs ys)
warnings-append (print_bytes cs ∷ xs) ys = warnings-append xs ys
warnings-append (hex n ∷ xs) ys = warnings-append xs ys
warnings-append (putc c ∷ xs) ys = warnings-append xs ys

warnings-deviation_report :
    (t : TaskInfo)
    → warnings (deviation_report t) ≡ (if ltb 0 t.avg_exec_time && is_anomaly t then 1 else 0)
unfolding warnings deviation_report
warnings-deviation_report t = ground arith

warnings-deadline_report : (t : TaskInfo) → warnings (deadline_report t) ≡ 0
unfolding warnings deadline_report
warnings-deadline_report t = ground arith

warnings-stack_report : (t : TaskInfo) → warnings (stack_report t) ≡ 0
unfolding warnings stack_report
warnings-stack_report t = ground arith

-- A task whose last time is below its average, or above it by more than 50 per cent, rounded down.
abbrev pub stands_out : TaskInfo → Bool
stands_out t =
    ltb 0 t.avg_exec_time
    && (ltb t.last_exec_time t.avg_exec_time
        || ltb 50 ((t.last_exec_time - t.avg_exec_time) * 100 / t.avg_exec_time))

abbrev pub how_many : List TaskInfo → ℕ
how_many [] = 0
how_many (t ∷ ts) = (if stands_out t then 1 else 0) + how_many ts

-- The tasks have not run yet, or their times are below 2^24 and their average is at least 2.
abbrev pub InRange : List TaskInfo → Type 0
InRange [] = Unit {0}
InRange (t ∷ ts) =
    ((t.avg_exec_time ≡ 0)
      ⊎ ((2 ≤ t.avg_exec_time) × (t.avg_exec_time < 2 ^ 24) × (t.last_exec_time < 2 ^ 24)))
    × InRange ts

anomaly-stands_out :
    (t : TaskInfo)
    → (t.avg_exec_time ≡ 0)
      ⊎ ((2 ≤ t.avg_exec_time) × (t.avg_exec_time < 2 ^ 24) × (t.last_exec_time < 2 ^ 24))
    → (ltb 0 t.avg_exec_time && is_anomaly t) ≡ stands_out t
anomaly-stands_out t (inl never) = rw never refl
anomaly-stands_out t (inr (low, high, last)) =
    ap (λ b. ltb 0 t.avg_exec_time && b) (is_anomaly_lem t low high last)

warnings-task_report : (t : TaskInfo) → warnings (task_report t) ≡ warnings (deviation_report t)
unfolding warnings task_report
warnings-task_report t =
    let stack = stack_report t ++ print "\n" ∷ [] in
    ground (
      arith,
      warnings-append (deviation_report t) (deadline_report t ++ stack),
      warnings-append (deadline_report t) stack,
      warnings-append (stack_report t) (print "\n" ∷ []),
      warnings-deadline_report t,
      warnings-stack_report t,
    )

warnings-for_each :
    (ts : List TaskInfo) → InRange ts → warnings (for_each task_report ts) ≡ how_many ts
unfolding warnings for_each
warnings-for_each [] h = refl
warnings-for_each (t ∷ ts) (here, rest) =
    warnings-append (task_report t) (for_each task_report ts)
    ∙ ap₂ ◌+◌
        (warnings-task_report t
          ∙ warnings-deviation_report t
          ∙ ap (λ b. if b then 1 else 0) (anomaly-stands_out t here))
        (warnings-for_each ts rest)

abbrev closing : List Output
closing =
    print "=== AI Analysis Complete ===\n"
    ∷ print "Algorithm: Exponential Moving Average (EMA) for prediction\n"
    ∷ print "Anomaly Detection: Statistical deviation analysis\n\n"
    ∷ []

warnings-framed :
    (xs : List Output) (n : ℕ)
    → warnings xs ≡ n
    → warnings (print "\n=== Task Performance Analysis (AI-Powered) ===\n\n" ∷ xs ++ closing) ≡ n
unfolding warnings
warnings-framed xs n e = omega (arith, warnings-append xs closing, e)

-- `cmd_stats` prints its warning as many times as its list has tasks whose last time is below the average, by
-- however little, or above it by more than 50 per cent, rounded down; a task without an average is not one of
-- them. This holds where each other task of the list has times below 2^24 and an average of at least 2.
pub warnings-cmd_stats :
    (k : Kernel)
    → InRange (get_task_list true 10 k)
    → warnings (cmd_stats k).0 ≡ how_many (get_task_list true 10 k)
unfolding cmd_stats
warnings-cmd_stats k h =
    warnings-framed (for_each task_report (get_task_list true 10 k))
      (how_many (get_task_list true 10 k)) (warnings-for_each (get_task_list true 10 k) h)
