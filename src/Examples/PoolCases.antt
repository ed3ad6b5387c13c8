-- ===== src/Examples/PoolCases.antt =====
-- The pool and the device guard on the simulated runtime.
use infini_rt.Base.{ℕ, Bool, ◌≡◌, refl, [], some, true, false, arith, ◌⊎◌, ◌<◌, ◌+◌, inl, u64_mod}
use infini_rt.Device.{cpu, nvidia, Device, count}
use infini_rt.Guard.{construct, destroy}
use infini_rt.Guard.Selection.{active-restores}
use infini_rt.Pool.Machine.{
  State, ok, err, find, double_free, already_pinned, generation_exhausted, Result,
}
use infini_rt.Pool.Allocate.{capturing, allocate_block, free_block, grow}
use infini_rt.Pool.Release.{deallocate}
use infini_rt.Pool.Pin.{begin_pin_mode, commit_pin_mode, retain_for_capture}
use infini_rt.Pool.Entry.{create, allocate, trim, close, initial_state}
use infini_rt.Pool.Backing.{Unchanged}
use infini_rt.Pool.Reach.{Machine, Run, here, next, step, deallocates, allocates, commits, begins}
use infini_rt.Pool.Pinning.{count_all}
use infini_rt.Pool.Owners.{owners}
use infini_rt.Pool.Refinement.{History, events_of, create-Run-History}
use infini_rt.Pool.Sound.{IsSound, started-IsSound}
use infini_rt.Pool.Lifetime.{
  create-Run-IsSound, new_machine, leased-registered, close_retains, close_frees,
}
use infini_rt.Pool.Guarded.{Allocated, TrimmedTo, allocate-Allocated, trim-TrimmedTo}
use infini_rt.Pool.Ownership.{release_times, release_times_free}
use infini_rt.Pool.Transaction.{begin_cases, allocate-retain_for_capture}
use infini_rt.CpuRuntime.{Host, set_device, cpu_facade, cpu_facade-Allocates, cpu_pool-IsSound}
use infini_rt.Examples.Backend.{
  World, simulated, simulated-SelectsDevices, simulated-Allocates, start,
}

abbrev gpu : Device
gpu = record { type = nvidia; index = 2 }

abbrev fresh_pool : State
fresh_pool = initial_state gpu 77 77

created : create simulated gpu start ≡ (ok fresh_pool, start)
unfolding create
created = refl

-- One block of the smallest class, at address 1, with its one owner.
abbrev one_taken : Machine World
one_taken = step simulated (allocates 5 1000) (new_machine fresh_pool start)

one_taken-IsSound : IsSound simulated simulated-Allocates one_taken
one_taken-IsSound =
    create-Run-IsSound simulated simulated-Allocates gpu start start fresh_pool created
      (next here (allocates 5 1000) tt)

first_pointer : (allocate simulated 5 1000 fresh_pool start).0 ≡ ok 1
unfolding allocate grow allocate_block
first_pointer = refl

fresh-IsSound : IsSound simulated simulated-Allocates (new_machine fresh_pool start)
fresh-IsSound = started-IsSound simulated simulated-Allocates gpu 77 77 start

create-Run-IsSound_example : IsSound simulated simulated-Allocates one_taken
create-Run-IsSound_example =
    create-Run-IsSound simulated simulated-Allocates gpu start start fresh_pool created
      (next here (allocates 5 1000) tt)

allocate-Allocated_example :
    let r = allocate simulated 5 1000 fresh_pool start in
    Allocated simulated simulated-Allocates 5 fresh_pool 1000 r.0 r.1 r.2
allocate-Allocated_example =
    allocate-Allocated simulated simulated-Allocates fresh_pool start fresh-IsSound.well_formed
      fresh-IsSound.backed 5 1000 (omega arith)

trim-TrimmedTo_example :
    let r = trim simulated one_taken.state one_taken.world in
    TrimmedTo simulated simulated-Allocates one_taken.state r.0 r.1 r.2
trim-TrimmedTo_example =
    trim-TrimmedTo simulated simulated-Allocates one_taken.state one_taken.world
      one_taken-IsSound.well_formed one_taken-IsSound.backed

release_times_free_example :
    let r = release_times 0 1 one_taken.state in
    (r.0 ≡ ok 0) × ((r.1.heap 0).in_use ≡ false) × (deallocate 1 r.1 ≡ (err double_free, r.1))
release_times_free_example =
    release_times_free 0 1 0 one_taken.state one_taken-IsSound.well_formed
      (unfold step allocate grow allocate_block in refl)
      (unfold step allocate grow allocate_block in refl)

active-restores_example :
    (simulated.runtime_device_type (destroy simulated (construct simulated nvidia 2 start).0 start)
      ≡ cpu)
    × (simulated.get_device (destroy simulated (construct simulated nvidia 2 start).0 start)
        ≡ (0, 0))
active-restores_example =
    active-restores simulated simulated-SelectsDevices nvidia 2 0 start start
      (unfold construct in refl) refl refl

abbrev capture_begun : Machine World
capture_begun = step simulated (begins 5) (new_machine fresh_pool start)

abbrev captured : Machine World
captured = step simulated (commits 5) (step simulated (allocates 5 1000) capture_begun)

abbrev captured_run : Run simulated (new_machine fresh_pool start) captured
captured_run = next (next (next here (begins 5) tt) (allocates 5 1000) tt) (commits 5) tt

captured-IsSound : IsSound simulated simulated-Allocates captured
captured-IsSound =
    create-Run-IsSound simulated simulated-Allocates gpu start start fresh_pool created captured_run

leased_once : 0 < count_all 0 captured.leases
unfolding step allocate grow allocate_block begin_pin_mode commit_pin_mode
leased_once = omega arith

leased-registered_example :
    (find (captured.state.heap 0).ptr captured.state.all_blocks ≡ some 0)
    × (simulated-Allocates.live captured.world (captured.state.heap 0).ptr ≡ true)
    × (0 < (captured.state.heap 0).pin_count)
leased-registered_example =
    leased-registered simulated simulated-Allocates gpu start start fresh_pool 0 created
      captured_run leased_once

create-Run-History_example :
    History (λ q. 0) (events_of simulated captured_run) (owners captured.state)
create-Run-History_example =
    create-Run-History simulated simulated-Allocates gpu start start fresh_pool created captured_run

-- A block that was taken and released.
abbrev returned_block : Machine World
returned_block = step simulated (deallocates 1) one_taken

abbrev unselectable : State
unselectable = initial_state (record { type = count; index = 0 }) 0 0

close_retains_example :
    Unchanged simulated simulated-Allocates start (close simulated unselectable start)
close_retains_example =
    close_retains simulated simulated-Allocates unselectable start (inl (unfold construct in refl))

taken-active :
    (construct simulated one_taken.state.device.type one_taken.state.device.index
      one_taken.world).0.active
    ≡ true
unfolding step allocate grow allocate_block construct
taken-active = refl

taken-frees : (q : ℕ) (w1 : World) → (free_block simulated q one_taken.state w1).0 ≡ 0
unfolding step allocate grow allocate_block free_block
taken-frees q w1 = refl

close_frees_example :
    simulated-Allocates.live (close simulated one_taken.state one_taken.world) 1 ≡ false
close_frees_example =
    close_frees simulated simulated-Allocates one_taken.state one_taken.world
      one_taken-IsSound.well_formed taken-active (λ w1. refl) taken-frees 1 0
      (unfold step allocate grow allocate_block in refl)

begin_cases_example :
    let r = begin_pin_mode 5 fresh_pool in
    ((false ≡ true) × (r ≡ (err already_pinned, fresh_pool)))
    ⊎ ((false ≡ false) × (0 + 1 ≡ u64_mod) × (r ≡ (err generation_exhausted, fresh_pool)))
    ⊎ ((false ≡ false) × (r.0 ≡ ok 0) × (capturing 5 r.1 ≡ true) × (r.1.capture_generation ≡ 0 + 1))
begin_cases_example = begin_cases 5 fresh_pool [] fresh-IsSound.pinned

abbrev begun_taken : Result ℕ × State × World
begun_taken = allocate simulated 5 1000 capture_begun.state capture_begun.world

capture_begun-IsSound : IsSound simulated simulated-Allocates capture_begun
capture_begun-IsSound =
    create-Run-IsSound simulated simulated-Allocates gpu start start fresh_pool created
      (next here (begins 5) tt)

allocate-retain_for_capture_example : (retain_for_capture 5 1 begun_taken.1).0 ≡ ok false
allocate-retain_for_capture_example =
    allocate-retain_for_capture simulated simulated-Allocates 5 1000 1 capture_begun.state
      begun_taken.1 capture_begun.world begun_taken.2 capture_begun-IsSound.well_formed
      capture_begun-IsSound.backed (omega arith) (unfold step begin_pin_mode in refl)
      (unfold begin_pin_mode step allocate grow allocate_block in refl)

abbrev host : Host
host = record { selected = cpu; top = 0; held = [] }

abbrev cpu_device : Device
cpu_device = record { type = cpu; index = 0 }

abbrev never : ℕ → Host → Bool
never n w = false

cpu_created : create (cpu_facade never) cpu_device host ≡ (ok (initial_state cpu_device 0 0), host)
unfolding create set_device
cpu_created = refl

cpu_pool-IsSound_example :
    IsSound
      (cpu_facade never)
      (cpu_facade-Allocates never)
      (step (cpu_facade never) (allocates 1 500) (new_machine (initial_state cpu_device 0 0) host))
cpu_pool-IsSound_example =
    cpu_pool-IsSound never cpu_device host host (initial_state cpu_device 0 0) cpu_created
      (next here (allocates 1 500) tt)
