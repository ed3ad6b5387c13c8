-- ===== src/CpuRuntime/Events.antt =====
-- The events of `Runtime<kCpu>` in src/native/cpu/runtime_.h: a `time_point` on the heap for each.
-- The reading of the steady clock is an argument, in units of which `ticks` make a microsecond. An
-- operation on a pointer to no event, which is undefined behaviour, gives none.
use infini_rt.Base.{
  ℕ, suc, ◌-◌, ◌/◌, ◌≡◌, Bool, ltb, ◌==◌, ◌||◌, if◌then◌else◌, Option, none, some, arith, ◌>>=◌,
  false,
}
use infini_rt.CpuRuntime.{invalid_value, memory_allocation}

pub record Events : Type 0 where
  pub top : ℕ
  pub times : ℕ → Option ℕ

-- The out parameter is not null; `refused` says that `new (std::nothrow)` gave a null pointer.
unfoldable pub event_create : Bool → ℕ → Events → ℕ × ℕ × Events
event_create refused now s = if refused then (memory_allocation, 0, s) else (
  0,
  suc s.top,
  record s { top = suc s.top; times = λ e. if e == suc s.top then some now else s.times e },
)

abbrev pub event_create_with_flags : Bool → ℕ → ℕ → Events → ℕ × ℕ × Events
event_create_with_flags refused flags now s = event_create refused now s

abbrev pub record_at : ℕ → ℕ → Events → Option ℕ → Option (ℕ × Events)
record_at event now s none = none
record_at event now s (some before) =
    some (0, record s { times = λ e. if e == event then some now else s.times e })

unfoldable pub event_record : ℕ → ℕ → Events → Option (ℕ × Events)
event_record event now s =
    if event == 0 then some (invalid_value, s) else record_at event now s (s.times event)

abbrev pub event_query : ℕ → ℕ
event_query event = if event == 0 then invalid_value else 0

abbrev pub event_synchronize : ℕ → ℕ
event_synchronize event = if event == 0 then invalid_value else 0

abbrev pub stream_wait_event : ℕ → ℕ → ℕ → ℕ
stream_wait_event stream event flags = 0

abbrev pub delete_at : ℕ → Events → Option ℕ → Option (ℕ × Events)
delete_at event s none = none
delete_at event s (some before) =
    some (0, record s { times = λ e. if e == event then none else s.times e })

-- `delete` of a null pointer does nothing.
unfoldable pub event_destroy : ℕ → Events → Option (ℕ × Events)
event_destroy event s = if event == 0 then some (0, s) else delete_at event s (s.times event)

-- A duration in microseconds, towards zero as `duration_cast` rounds, and its sign. The milliseconds
-- of `*ms` are this number as a float, divided by 1000.
pub record Span : Type 0 where
  pub backwards : Bool
  pub microseconds : ℕ

abbrev pub span : ℕ → ℕ → ℕ → Span
span ticks start end =
    if ltb end start
    then record { backwards = Bool.true; microseconds = (start - end) / ticks }
    else record { backwards = Bool.false; microseconds = (end - start) / ticks }

abbrev pub elapsed_at : ℕ → Option ℕ → Option ℕ → Option (ℕ × Option Span)
elapsed_at ticks none end = none
elapsed_at ticks (some start) none = none
elapsed_at ticks (some start) (some end) = some (0, some (span ticks start end))

-- Status, and what is written to `*ms`, which is not null.
unfoldable pub event_elapsed_time : ℕ → ℕ → ℕ → Events → Option (ℕ × Option Span)
event_elapsed_time ticks start end s =
    if (start == 0) || (end == 0)
    then some (invalid_value, none)
    else elapsed_at ticks (s.times start) (s.times end)

next-ne : (n : ℕ) → ((suc n == suc (suc n)) ≡ false) × ((suc n == 0) ≡ false)
next-ne n = ground arith

-- Two events that are created and then recorded, each at its time, measure the time between their
-- records: the times of their creation do not matter, and one does not overwrite the other.
pub event_record-event_elapsed_time :
    (ticks t0 t1 t2 t3 : ℕ) (s : Events)
    → let s1 = (event_create Bool.false t0 s).2 in
      let start = (event_create Bool.false t0 s).1 in
      let s2 = (event_create Bool.false t1 s1).2 in
      let end = (event_create Bool.false t1 s1).1 in
      (do
        (recorded, s3) ← event_record start t2 s2
        (recorded', s4) ← event_record end t3 s3
        event_elapsed_time ticks start end s4)
      ≡ some (0, some (span ticks t2 t3))
unfolding event_create event_record event_elapsed_time
event_record-event_elapsed_time ticks t0 t1 t2 t3 s = ground (arith, next-ne s.top)
