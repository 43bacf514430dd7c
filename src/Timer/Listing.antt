-- ===== src/Timer/Listing.antt =====
-- What `smart_timer_list` prints.
use Prim.Native.String.{String}
use smart_os.Base.{ℕ, zero, suc, ◌+◌, List, [], ◌∷◌, ◌++◌, ◌==◌, if◌then◌else◌}
use smart_os.Timer.{
  TimerType, one_shot, periodic, TimerState, stopped, running, expired, Timer, Timers, Stats,
  max_timers,
}
use smart_os.Shell.Console.{Output, print, hex}

pub type_name : TimerType → String
type_name one_shot = "OneShot   "
type_name periodic = "Periodic  "

pub state_name : TimerState → String
state_name stopped = "Stopped   "
state_name running = "Running   "
state_name expired = "Expired   "

pub timer_line : Timer → List Output
unfolding type_name state_name
timer_line t =
    print "0x"
    ∷ hex t.id
    ∷ print " "
    ∷ print (type_name t.type)
    ∷ print (state_name t.state)
    ∷ print "0x"
    ∷ hex t.period_ms
    ∷ print "     0x"
    ∷ hex t.remaining_ms
    ∷ print "\r\n"
    ∷ []

-- The loop over `n` control blocks from the one at address `p` on; a block with no identifier is free.
pub timer_lines : ℕ → ℕ → Timers → List Output
unfolding timer_line
timer_lines zero p s = []
timer_lines (suc n) p s =
    let rest = timer_lines n (p + 1) s in
    if (s.pool p).id == 0 then rest else timer_line (s.pool p) ++ rest

pub stats_lines : Stats → List Output
stats_lines v =
    print "\r\n=== Timer Statistics ===\r\n"
    ∷ print "Total Timers: 0x"
    ∷ hex v.total_timers
    ∷ print "\r\nActive Timers: 0x"
    ∷ hex v.active_timers
    ∷ print "\r\nExpired Count: 0x"
    ∷ hex v.expired_count
    ∷ print "\r\nCallback Count: 0x"
    ∷ hex v.callback_count
    ∷ print "\r\nMax Callback Time: 0x"
    ∷ hex v.max_callback_time_us
    ∷ print " us\r\n"
    ∷ []

pub list_timers : Timers → List Output
unfolding timer_lines stats_lines
list_timers s =
    print "=== Timer List ===\r\n"
      ∷ print "ID   Type      State     Period(ms) Remaining(ms)\r\n"
      ∷ print "------------------------------------------------\r\n"
      ∷ timer_lines max_timers 1 s
    ++ stats_lines s.stats
