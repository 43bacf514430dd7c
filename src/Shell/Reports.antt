-- ===== src/Shell/Reports.antt =====
-- The commands that print what the system keeps. A number is printed by `smart_uart_print_hex32`.
use Prim.Native.String.{String}
use smart_os.Base.{
  ℕ, ◌-◌, ◌*◌, ◌/◌, ◌%◌, true, List, [], ◌∷◌, ◌++◌, Ptr, Option, none, some, u32, sub_u32, ltb,
  if◌then◌else◌, length, replicate,
}
use mathlib.Core.List.{map}
use smart_os.Shell.Console.{Output, for_each, print, print_bytes, hex, putc, Exit, success, failure}
use smart_os.Kernel.State.{TaskState, init, ready, running, waiting, suspend, delayed, Kernel}
use smart_os.Kernel.Info.{TaskInfo, get_task_list, get_tick}
use smart_os.Mempool.{Store, Stats, get_stats}
use smart_os.Uart.{Uart, rx_count}

-- `shell_command_t` less its `usage`, which nothing prints, and its function.
pub record Command : Type 0 where
  pub name : List ℕ
  pub description : List ℕ

pub help_line : Command → List Output
help_line c =
    print "  " ∷ print_bytes c.name ∷ map putc (replicate (12 - length c.name) 32)
    ++ print_bytes c.description ∷ print "\n" ∷ []

pub cmd_help : List Command → List Output × Exit
unfolding for_each help_line
cmd_help commands = (
  print "\nAvailable commands:\n" ∷ print "------------------\n" ∷ for_each help_line commands
      ++ print "\n" ∷ [],
  success,
)

-- `build` is the text that the compiler puts together from its date and time.
pub cmd_version : String → List Output × Exit
cmd_version build = (
  print "\nSmart-OS v1.0\n" ∷ print build ∷ print "A simple RTOS for ARM Cortex-M3\n\n" ∷ [],
  success,
)

pub cmd_uptime : Kernel → List Output × Exit
unfolding get_tick
cmd_uptime k =
    let ticks = get_tick k in
    let seconds = ticks / 1000 in
    let minutes = seconds / 60 in
    let hours = minutes / 60 in
    (
      print "\nSystem uptime: "
          ∷ hex hours
          ∷ print "h "
          ∷ hex (minutes % 60)
          ∷ print "m "
          ∷ hex (seconds % 60)
          ∷ print "s ("
          ∷ hex ticks
          ∷ print " ticks)\n\n"
          ∷ [],
      success,
    )

-- `state_names`; a state is one of the six.
pub state_name : TaskState → String
state_name init = "INIT "
state_name ready = "READY"
state_name running = "RUN  "
state_name waiting = "WAIT "
state_name suspend = "SUSP "
state_name delayed = "DELAY"

pub task_line : TaskInfo → List Output
unfolding state_name
task_line t =
    print "0x"
    ∷ hex t.entry
    ∷ print " "
    ∷ print (state_name t.state)
    ∷ print " "
    ∷ hex t.switch_count
    ∷ print "    "
    ∷ hex t.last_exec_time
    ∷ print "/"
    ∷ hex t.avg_exec_time
    ∷ print "/"
    ∷ hex t.max_exec_time
    ∷ print "  "
    ∷ hex t.deadline_miss_count
    ∷ print "      "
    ∷ hex (sub_u32 t.stack_size t.min_free_stack)
    ∷ print "/"
    ∷ hex t.stack_size
    ∷ print "\n"
    ∷ []

abbrev rule : Output
rule = print "-------------------------------------------------------------------------\n"

pub cmd_ps : Kernel → List Output × Exit
unfolding task_line for_each get_task_list
cmd_ps k =
    let tasks = get_task_list true 10 k in
    (
      print "\nTask List:\n"
            ∷ rule
            ∷ print "Entry      State   Switches  ExecTime(Last/Avg/Max)  Misses  Stack\n"
            ∷ rule
            ∷ for_each task_line tasks
          ++ rule
            ∷ print "Total: "
            ∷ hex (length tasks)
            ∷ print " tasks | ExecTime in ticks (1 tick = 1ms)\n\n"
            ∷ [],
      success,
    )

pub cmd_clear : List Output × Exit
cmd_clear = (print_bytes (27 ∷ b'[' ∷ b'2' ∷ b'J' ∷ 27 ∷ b'[' ∷ b'H' ∷ []) ∷ [], success)

abbrev no_pool : List Output × Exit
no_pool = (print "\nError: Memory pool not available\n\n" ∷ [], failure)

-- `total_bytes`, `free_bytes` and `used_bytes`.
abbrev pub total_bytes : Stats → ℕ
total_bytes s = u32 (s.block_size * s.block_count)

abbrev pub free_bytes : Stats → ℕ
free_bytes s = u32 (s.block_size * s.free_count)

abbrev pub used_bytes : Stats → ℕ
used_bytes s = sub_u32 (total_bytes s) (free_bytes s)

pub pool_report : Stats → List Output
pool_report s =
    print "\nMemory Pool Information:\n"
    ∷ print "------------------------\n"
    ∷ print "Block size:      "
    ∷ hex s.block_size
    ∷ print " bytes\n"
    ∷ print "Total blocks:    "
    ∷ hex s.block_count
    ∷ print "\n"
    ∷ print "Free blocks:     "
    ∷ hex s.free_count
    ∷ print "\n"
    ∷ print "Used blocks:     "
    ∷ hex (sub_u32 s.block_count s.free_count)
    ∷ print "\n"
    ∷ print "Min free (peak): "
    ∷ hex s.min_free_count
    ∷ print "\n"
    ∷ print "\nTotal memory:    "
    ∷ hex (total_bytes s)
    ∷ print " bytes\n"
    ∷ print "Used memory:     "
    ∷ hex (used_bytes s)
    ∷ print " bytes\n"
    ∷ print "Free memory:     "
    ∷ hex (free_bytes s)
    ∷ print " bytes\n\n"
    ∷ []

-- The statistics are there exactly when the pool's address is not `NULL`.
pub cmd_meminfo : Store → Ptr → List Output × Exit
unfolding pool_report
cmd_meminfo s pool = elim (get_stats s pool true) [
  | none ↦ no_pool
  | some stats ↦ (pool_report stats, success)
]

pub cmd_free : Store → Ptr → List Output × Exit
cmd_free s pool = elim (get_stats s pool true) [
  | none ↦ no_pool
  | some stats ↦ (
    print "\n              Total       Used       Free\n"
        ∷ print "Memory:   "
        ∷ hex (total_bytes stats)
        ∷ print "   "
        ∷ hex (used_bytes stats)
        ∷ print "   "
        ∷ hex (free_bytes stats)
        ∷ print "\n\n"
        ∷ [],
    success,
  )
]

-- `total_sectors` and `base_address` are fields of the flash device, of which there may be none.
pub cmd_fsinfo : Option (ℕ × ℕ) → List Output × Exit
cmd_fsinfo none = (print "\nError: Flash device not available\n\n" ∷ [], failure)
cmd_fsinfo (some (total_sectors, base_address)) =
    let total = u32 (total_sectors * 512) in
    (
      print "\nFile System Information:\n"
          ∷ print "------------------------\n"
          ∷ print "Type:            FAT12\n"
          ∷ print "Total sectors:   "
          ∷ hex total_sectors
          ∷ print "\n"
          ∷ print "Sector size:     512 bytes\n"
          ∷ print "Total size:      "
          ∷ hex total
          ∷ print " bytes ("
          ∷ hex (total / 1024)
          ∷ print " KB)\n"
          ∷ print "Base address:    0x"
          ∷ hex base_address
          ∷ print "\n\n"
          ∷ [],
      success,
    )

pub cmd_uartinfo : Uart → List Output × Exit
cmd_uartinfo u =
    let head =
      print "\n=== UART Interrupt Statistics ===\n\n"
      ∷ print "Interrupt Mode:   ENABLED\n"
      ∷ print "Buffer Size:      256 bytes\n"
      ∷ print "Current Buffer:   "
      ∷ hex (rx_count u)
      ∷ print " bytes\n\n"
      ∷ print "Statistics:\n"
      ∷ print "  Interrupts:     "
      ∷ hex u.rx_interrupt_count
      ∷ print " times\n"
      ∷ print "  Chars Received: "
      ∷ hex u.rx_char_count
      ∷ print " chars\n"
      ∷ print "  Buffer Overflow:"
      ∷ hex u.rx_overflow_count
      ∷ print " times"
      ∷ [] in
    let state = if ltb 0 u.rx_overflow_count then print " [WARNING]" else print " [OK]" in
    let average =
      if ltb 0 u.rx_interrupt_count
      then print "Avg chars/interrupt: "
        ∷ hex (u.rx_char_count / u.rx_interrupt_count)
        ∷ print "\n"
        ∷ []
      else [] in
    let working =
      if ltb 0 u.rx_interrupt_count
      then print "YES (interrupt-driven mode)\n"
      else print "NO (polling mode or no input yet)\n" in
    (
      head
          ++ state ∷ print "\n\n" ∷ average
          ++ print "\nInterrupt working: " ∷ working ∷ print "\n" ∷ [],
      success,
    )
