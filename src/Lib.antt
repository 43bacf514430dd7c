-- ===== src/Lib.antt =====
-- Smart-OS: the kernel of a small Cortex-M3 system with an earliest-deadline-first scheduler, its memory
-- pools, message queues, software timers, semaphores and locks, its serial driver, a FAT12 file system on a
-- block device, a shell, and a game.
--
-- The parts and where they are modelled:
--
--   MsgQueue  core/smart_msgqueue.c. The queue is a ring of messages; `push` and `pop` are the bodies of
--             smart_msgqueue_send and smart_msgqueue_receive, `send` and `receive` add the argument checks.
--             Inv has the invariant, Fifo the abstract queue, Refine the refinement, Stats the drop counter.
--   Mempool   core/smart_mempool.c. A pool's free list runs through the first word of each free block, so a
--             store holds the pools, the words of memory and the registry that the tick walks. Inv says what
--             a free list is, Init is about smart_mempool_init, Clients about what clients hold, DoubleFree
--             about a block that is freed twice.
--   Kernel    core/smart_core.c. State has the task control block and the static variables; Critical the
--             nesting of critical sections; Schedule smart_schedule; Block smart_task_yield, smart_delay and
--             smart_os_start; Wake the loop of SysTick_Handler; Create smart_task_create and smart_os_init;
--             Info the queries.
--   Timer     core/smart_timer.c. Sixteen control blocks, the running ones linked; Pool is about starting and
--             stopping, Tick is smart_timer_tick, Tick.Quiet and Tick.Lost are about what it does,
--             Listing is smart_timer_list.
--   Sync      core/smart_sync.c. Semaphores (Sem) and recursive locks (Lock) over the kernel's tasks. Their
--             wait queues use the tasks' own links, as in the code.
--   Uart      drivers/smart_uart.c. The receive ring, its interrupt handler and the hexadecimal printing.
--   Block     drivers/smart_block.c. Flash is the storage of the board with the memory that it lies in. The
--             record BlockDevice is what the file system uses of a device, and IsLawful what a device promises
--             of its sectors; Sectors shows that the storage promises it.
--   Fs        core/smart_fs.c, over any BlockDevice. Names has the 8.3 form of names; Fat the twelve-bit entries
--             of the allocation table; Dir the search of the root directory and smart_fs_open, smart_fs_close,
--             smart_fs_update_file_info, smart_fs_create and smart_fs_delete; Format smart_fs_format and
--             smart_fs_init; Files smart_fs_read; Writing smart_fs_write; Listing smart_fs_list_dir. Their children
--             hold the proofs, over any device that keeps its promises: Fat.Allocation is about the choice of a
--             cluster, Files.Brought and Writing.ReadBack about files that fit their first cluster, Writing.NewFile
--             about files that have none yet. Disk is a disk in memory for the tests.
--   Snake     user/snake_game.c. The body is an array that a step shifts. Parts sees it as a list, Moves is about
--             what the game keeps, Turns about what a step does, Screen has what is printed.
--   Shell     core/smart_shell.c. process_input is the line editor, parse_command splits a line, find_command looks
--             a command up. Editing sees the editor as one of a list, Words splits a line by pieces. Console is what
--             a command prints, call by call; Reports has the commands that print what the system keeps, Stats
--             cmd_stats (Warnings counts its warnings), MessageTest cmd_msgtest, SyncTest cmd_synctest, Play cmd_snake, and Files cmd_cat,
--             cmd_ls, cmd_rm, cmd_echo and cmd_format.
--   System    SysTick_Handler of core/smart_core.c, composed of the tick of the kernel, of the pools and of the
--             timers. Wakeup is about the tasks that it wakes, Quiet about timers that do not expire.
--   Base      what the parts share: words that wrap, Boolean tests, lists, rings, and lists linked by address.
--
-- How the code is read. A state is a record and an operation a function from the old state to the new one
-- and the result. An address is a number and NULL is 0; where only being NULL matters, a pointer argument is
-- an option or a Boolean. A uint32_t or uint16_t is a number, with its wrap-around written out. A critical
-- section masks all interrupts on a single core, so an operation that is one critical section is one step;
-- in the kernel and in Sync the nesting counter is part of the state, elsewhere it is left out.
--
-- Fuel. A walk along a linked list (find_best, wake, find_prev, tick_loop, find_last, find_waiter) takes fuel,
-- and `none` says that it ran out, as it would on a list that goes round. In Kernel, Sync and System `none` also
-- says that smart_schedule met a broken stack guard, where the code reports it and loops for ever. The theorems
-- ask for more fuel than the list has nodes, and for intact guards where they say that a call which schedules
-- returns, and show that the result is then `some`. wait_loop and lock_loop also count the rounds of
-- polling. In Fs.Files the walk along a chain takes one step for each cluster before the position, and the
-- loop that reads takes at most as many rounds as bytes are wanted. In Fs.Writing the walk takes one step for each
-- full cluster, and the loop that writes stores at least one byte in a round. The loop of cmd_cat has a
-- round more than the file has bytes, and the loop of cmd_msgtest that drains the queue as many as places. align_down has
-- eight rounds, since seven lower an address to a multiple of eight.
--
-- Parameters. What a timer's callback does and how long it takes, and what other tasks and interrupts do while
-- a call polls, are arguments of the definitions. So are a device, its address and size, what an array on the
-- stack holds before it is filled, and the tick that seeds the game. A call that switches tasks ends in the
-- state in which it asks for the switch (pend_sv), and its status is what it returns when its task runs again.
--
-- Not modelled: the shell's commands test, stress and timer, which run demonstrations, and the
-- step that calls a command; the demo tasks in user/main.c and the banner, which only print; start-up and the switch of contexts in assembly (startup.S, arch/context.S); device registers, log
-- messages, those of the file system included; smart_uart_init, which only sets device registers and with which
-- smart_task_create begins; and the host's scripts.
pub mod Base
pub mod MsgQueue
pub mod Uart
pub mod Mempool
pub mod Kernel
pub mod Timer
pub mod Sync
pub mod Block
pub mod Fs
pub mod Snake
pub mod Shell
pub mod System
