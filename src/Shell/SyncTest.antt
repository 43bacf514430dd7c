-- ===== src/Shell/SyncTest.antt =====
-- `cmd_synctest`, in a run in which no other task acts between its calls. `sem` and `mutex` are the addresses of its
-- static objects; `fuel` bounds the walks of the calls along the task list and the wait queues, and `none` says that
-- one of them ran out of it, or that a switch met a broken stack guard.
use Prim.Native.String.{String}
use smart_os.Base.{ℕ, Option, some, ◌>>=◌, List, [], ◌∷◌, ◌++◌, Ptr, if◌then◌else◌}
use smart_os.Sync.{Status, is_ok, System}
use smart_os.Sync.Sem.{sem_init, sem_wait, sem_post, sem_try_wait, sem_get_count}
use smart_os.Sync.Lock.{mutex_init, mutex_lock, mutex_unlock, mutex_try_lock, mutex_is_locked}
use smart_os.Shell.Console.{Output, print, hex}

abbrev result : Status → String → List Output
result status good =
    print "   Result: " ∷ print (if is_ok status then good else "FAILED") ∷ print "\n" ∷ []

-- `LOCKED` is another text behind the first unlocking.
abbrev shown_state : String → System → Ptr → List Output
shown_state locked s mutex =
    print (if mutex_is_locked s mutex then locked else "UNLOCKED") ∷ print "\n" ∷ []

-- The part about semaphores.
pub semaphore_test : ℕ → Ptr → System → Option (List Output × System)
semaphore_test fuel sem s₀ = do
  let s₁ = sem_init s₀ sem 3 5
  first ← sem_wait fuel s₁ sem
  second ← sem_wait fuel first.1 sem
  posted ← sem_post fuel second.1 sem
  let tried = sem_try_wait posted.1 sem
  some (
    print "1. Testing Semaphore...\n"
          ∷ print "   Initial count: "
          ∷ hex (sem_get_count s₁ sem)
          ∷ print " (max=5)\n"
          ∷ print "   Acquiring 2 semaphores...\n"
          ∷ print "   Count after wait: "
          ∷ hex (sem_get_count second.1 sem)
          ∷ print "\n"
          ∷ print "   Releasing 1 semaphore...\n"
          ∷ print "   Count after post: "
          ∷ hex (sem_get_count posted.1 sem)
          ∷ print "\n"
          ∷ print "   Testing try_wait...\n"
          ∷ result tried.0 "SUCCESS"
        ++ print "   Count: " ∷ hex (sem_get_count tried.1 sem) ∷ print "\n\n" ∷ [],
    tried.1,
  )

-- The part about locks.
pub mutex_test : ℕ → Ptr → System → Option (List Output × System)
mutex_test fuel mutex s₀ = do
  let s₁ = mutex_init s₀ mutex
  first ← mutex_lock fuel s₁ mutex
  second ← mutex_lock fuel first.1 mutex
  third ← mutex_unlock fuel second.1 mutex
  fourth ← mutex_unlock fuel third.1 mutex
  let tried = mutex_try_lock fourth.1 mutex
  last ← mutex_unlock fuel tried.1 mutex
  let free =
      print "2. Testing Mutex...\n" ∷ print "   Initial state: " ∷ shown_state "LOCKED" s₁ mutex
  let taken =
      print "   Acquiring mutex...\n" ∷ result first.0 "SUCCESS"
      ++ print "   State: " ∷ shown_state "LOCKED" first.1 mutex
  let again = print "   Testing recursive lock...\n" ∷ result second.0 "SUCCESS (recursive)"
  let once =
      print "   Unlocking mutex (1st)...\n"
      ∷ print "   State: "
      ∷ shown_state "LOCKED (recursive)" third.1 mutex
  let twice =
      print "   Unlocking mutex (2nd)...\n"
        ∷ print "   State: "
        ∷ shown_state "LOCKED" fourth.1 mutex
      ++ print "\n" ∷ []
  let try =
      print "   Testing try_lock...\n" ∷ result tried.0 "SUCCESS"
      ++ print "   State: " ∷ shown_state "LOCKED" tried.1 mutex
  some (free ++ taken ++ again ++ once ++ twice ++ try ++ print "\n" ∷ [], last.1)

pub cmd_synctest : ℕ → (sem mutex : Ptr) → System → Option (List Output × System)
unfolding semaphore_test mutex_test
cmd_synctest fuel sem mutex s = do
  first ← semaphore_test fuel sem s
  second ← mutex_test fuel mutex first.1
  some (
    print "\n=== Synchronization Test ===\n\n" ∷ first.0
        ++ second.0
        ++ print "=== Test Complete ===\n"
          ∷ print "Features tested:\n"
          ∷ print "  * Semaphore: init, wait, post, try_wait\n"
          ∷ print "  * Mutex: init, lock, unlock, try_lock, recursive lock\n"
          ∷ print "  * Priority inheritance (implicit)\n\n"
          ∷ [],
    second.1,
  )
