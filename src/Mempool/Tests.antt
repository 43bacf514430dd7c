-- ===== src/Mempool/Tests.antt =====
-- Runs of the memory pool, and its theorems at a pool of three blocks at address 0x100.
use smart_os.Base.{◌≡◌, refl, some, List, [], ◌∷◌, true, Ptr, arith}
use smart_os.Mempool.{
  Pool, Store, ok, invalid, align_up, init, alloc_try, free_try, get_free, address_valid,
}
use smart_os.Mempool.Inv.{IsFree}
use smart_os.Mempool.Init.{blocks, Fits, init-IsFree}
use smart_os.Mempool.Clients.{Allocated, alloc_try-Allocated, Call, takes, gives, ticks, run}
use smart_os.Mempool.Clients.Ownership.{IsOwned, run-IsOwned}
use smart_os.Mempool.DoubleFree.{double_free}

abbrev blank : Pool
blank = record {
  buffer = 0;
  buffer_end = 0;
  block_size = 0;
  block_stride = 0;
  block_count = 0;
  free_count = 0;
  ops_per_tick = 0;
  ops_left = 0;
  free_list = 0;
  min_free_count = 0;
}

abbrev zeroed : Store
zeroed = record { mem = λ _. 0; pools = λ _. blank; registry = [] }

abbrev telemetry : Ptr
telemetry = 8

abbrev started : Store
started = init zeroed telemetry 0x100 62 3 5

telemetry-Fits : Fits telemetry 0x100 62 3
unfolding align_up
telemetry-Fits = omega arith

started-IsFree : IsFree started telemetry (0x100 ∷ 0x140 ∷ 0x180 ∷ [])
unfolding blocks align_up
started-IsFree = (init-IsFree zeroed telemetry 0x100 62 3 5 telemetry-Fits).0

started_runs :
    ((alloc_try started telemetry true).0 ≡ ok)
    × ((alloc_try started telemetry true).1 ≡ some 0x100)
    × ((free_try started telemetry 0x120).0 ≡ invalid)
    × ((alloc_try started telemetry true).2.mem 0x140 ≡ 0x180)
    × (get_free (alloc_try started telemetry true).2 telemetry ≡ 2)
unfolding alloc_try free_try init get_free
started_runs = (refl, refl, refl, refl, refl)

alloc_try-Allocated_example :
    Allocated started telemetry (0x100 ∷ 0x140 ∷ 0x180 ∷ []) (alloc_try started telemetry true)
alloc_try-Allocated_example =
    alloc_try-Allocated started telemetry (0x100 ∷ 0x140 ∷ 0x180 ∷ []) (omega arith) started-IsFree

started-IsOwned : IsOwned telemetry (started, [])
unfolding init
started-IsOwned = (
  0x100 ∷ 0x140 ∷ 0x180 ∷ [],
  record { listed = started-IsFree; held_once = tt; apart = λ b h. ground arith; total = refl },
)

abbrev calls : List Call
calls = takes ∷ takes ∷ gives 0x100 ∷ gives 0x100 ∷ ticks ∷ takes ∷ []

run-IsOwned_example : IsOwned telemetry (run telemetry (started, []) calls)
run-IsOwned_example = run-IsOwned calls telemetry (started, []) (omega arith) started-IsOwned

double_free_example :
    let (st, s₁) = free_try started telemetry 0x100 in
    let (_, first, s₂) = alloc_try s₁ telemetry true in
    (st ≡ ok) × (first ≡ some 0x100) × ((alloc_try s₂ telemetry true).1 ≡ some 0x100)
unfolding init address_valid
double_free_example =
    double_free started telemetry 0x100 (0x140 ∷ 0x180 ∷ []) (omega arith) started-IsFree refl
      (omega arith) (omega arith)
