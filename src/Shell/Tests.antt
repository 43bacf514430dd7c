-- ===== src/Shell/Tests.antt =====
-- A line and its words, and the theorems at them.
use smart_os.Base.{
  ℕ, ◌≡◌, refl, List, [], ◌∷◌, some, true, false, arith, take, length, null, inr, ◌+◌, ◌-◌, ◌/◌,
  ◌==◌, if◌then◌else◌,
}
use smart_os.Fs.{Fs, File}
use smart_os.Fs.Disk.{ram, ram_law, mounted}
use smart_os.Fs.Dir.{bytes}
use smart_os.Fs.Files.Content.{content}
use smart_os.Kernel.State.{ready, Task, Kernel}
use smart_os.Kernel.Info.{get_task_list}
use smart_os.Shell.Stats.{cmd_stats}
use smart_os.Shell.Stats.Warnings.{warnings, how_many, InRange, warnings-cmd_stats}
use smart_os.Shell.Files.{cat_loop}
use smart_os.Shell.Files.Cat.{printed, cat_loop_lem}
use smart_os.Shell.Play.{Round, cmd_snake, cmd_snake-IsValid}
use smart_os.Snake.Moves.{IsValid}
use smart_os.Shell.{Editor, parse_command, process_input, find_command}
use smart_os.Shell.Words.{words, parse_command_lem}
use smart_os.Shell.Editing.{Agrees, edit, line_of, process_input_lem}

-- "rm  a"
abbrev line : List ℕ
line = b'r' ∷ b'm' ∷ 32 ∷ 32 ∷ b'a' ∷ []

parse_command_lem_example : parse_command 16 line ≡ take 16 (words (take 127 line))
parse_command_lem_example = parse_command_lem 16 line

second : find_command ((b'l' ∷ b's' ∷ []) ∷ (b'r' ∷ b'm' ∷ []) ∷ []) 0 (b'r' ∷ b'm' ∷ []) ≡ some 1
unfolding find_command
second = refl

abbrev editor : Editor
editor = record { input_buffer = λ i. b'a'; input_pos = 1 }

process_input_lem_example : Agrees (process_input editor b'b') (edit (line_of editor) b'b')
process_input_lem_example =
    process_input_lem editor b'b' (omega arith, λ i l. (omega arith, omega arith))

-- Two tasks, one faster than its average by a tenth and one twice as slow.
abbrev timed : Task
timed = record {
  sp = 0;
  entry = 0x101;
  parameter = 0;
  stack_addr = 0x2000;
  stack_size = 256;
  stack_guard = 0x2000;
  deadline = 50;
  period = 20;
  arrival = 0;
  wakeup_time = 0;
  state = ready;
  switch_count = 3;
  min_free_stack = 128;
  exec_start_time = 0;
  last_exec_time = 9;
  avg_exec_time = 10;
  max_exec_time = 20;
  deadline_miss_count = 0;
  next = 8;
}

abbrev timed_kernel : Kernel
timed_kernel = record {
  tasks = λ p. if p == 4 then timed else record timed { last_exec_time = 20; next = null };
  mem = λ p. 0;
  current_task = 4;
  next_task = 4;
  task_list = 4;
  scheduler_started = true;
  os_tick = 40;
  critical_nesting = 0;
  irq_enabled = true;
  pend_sv = false;
  idle_task = 16;
  idle_stack = 0x2000;
  idle_entry = 0x101;
}

timed-InRange : InRange (get_task_list true 10 timed_kernel)
unfolding get_task_list
timed-InRange =
    (inr (omega arith, omega arith, omega arith), (inr (omega arith, omega arith, omega arith), tt))

two_stand_out : how_many (get_task_list true 10 timed_kernel) ≡ 2
unfolding get_task_list
two_stand_out = refl

warnings-cmd_stats_example :
    warnings (cmd_stats timed_kernel).0 ≡ how_many (get_task_list true 10 timed_kernel)
warnings-cmd_stats_example = warnings-cmd_stats timed_kernel timed-InRange

-- A disk whose every byte is an "a", and a file of 300 of them.
abbrev disk_of_a : ℕ → ℕ → ℕ
disk_of_a k i = b'a'

abbrev mounted_of_a : Fs ram
mounted_of_a = record mounted { fs_device = some disk_of_a }

abbrev file : File
file = record {
  first_cluster = 2;
  current_cluster = 2;
  file_size = 300;
  position = 0;
  is_dir = false;
  filename = [];
}

cat_loop_lem_example :
    (let out = (cat_loop ram 301 mounted_of_a file (λ x. 0) (λ x. 0)).0 in
      (printed out ≡ bytes (300 - 0) (content ram ram_law mounted_of_a disk_of_a 2) 0)
      × (length out ≡ (300 - 0 + 126) / 127))
cat_loop_lem_example =
    cat_loop_lem ram ram_law 301 mounted_of_a disk_of_a file (λ x. 0) (λ x. 0)
      (refl, omega arith, omega arith, omega arith, omega arith, omega arith) (omega arith)
      (omega arith) (λ x h e. omega (arith, e)) (omega arith)

-- Two rounds: a step after a key, and the key that quits.
abbrev game_rounds : List Round
game_rounds =
    record { keys = record { char = b'w'; tick = 290 } ∷ []; now = 300 }
    ∷ record { keys = record { char = b'q'; tick = 305 } ∷ []; now = 310 }
    ∷ []

cmd_snake-IsValid_example : IsValid (cmd_snake 5 20 game_rounds).1
cmd_snake-IsValid_example = cmd_snake-IsValid 5 20 game_rounds
