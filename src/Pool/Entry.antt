-- ===== src/Pool/Entry.antt =====
-- The constructor and destructor of a pool and its calls that select the device first.
use infini_rt.Base.{ℕ, true, false, not, ◌==◌, if◌then◌else◌, List, [], ◌∷◌, none}
use infini_rt.Device.{nvidia, count, Device, type_eq}
use infini_rt.Facade.{Facade}
use infini_rt.Guard.{construct, destroy}
use infini_rt.Pool.Machine.{
  new_block, State, invalid_device, cannot_select, create_stream, Result, ok, err, initial_classes,
}
use infini_rt.Pool.Allocate.{allocate_impl, free_block}
use infini_rt.Pool.Release.{trim_locked}

abbrev pub initial_state : Device → ℕ → ℕ → State
initial_state device stream allocation_stream = record {
  device = device;
  stream = stream;
  allocation_stream = allocation_stream;
  pinned_mode = false;
  pin_owner = none;
  capture_generation = 0;
  size_classes = initial_classes;
  large_blocks = [];
  all_blocks = [];
  capture_frozen_blocks = [];
  capture_frozen_block_set = [];
  heap = λ i. new_block;
  next_block = 0;
}

module _ {W : Type 0} (f : Facade W) where
  -- `DeviceGuard guard{type, index, true}` round a call: a guard that is not active throws.
  unfoldable pub guarded {ℓ} :
      {A : Type ℓ} → Device → (W → Result A × State × W) → State → W → Result A × State × W
  unfolding construct destroy
  guarded device body s w =
      let (guard, w1) = construct f device.type device.index w in
      let (r, s', w2) = body w1 in
      if guard.active
      then (r, s', destroy f guard w2)
      else (err cannot_select, s, destroy f guard w1)

  unfoldable pub allocate : ℕ → ℕ → State → W → Result ℕ × State × W
  unfolding guarded allocate_impl
  allocate tid size s w = guarded s.device (allocate_impl f tid size false s) s w

  unfoldable pub allocate_exact : ℕ → ℕ → State → W → Result ℕ × State × W
  unfolding guarded allocate_impl
  allocate_exact tid size s w = guarded s.device (allocate_impl f tid size true s) s w

  unfoldable pub trim : State → W → Result ℕ × State × W
  unfolding guarded trim_locked
  trim s w = guarded s.device (trim_locked f s) s w

  -- The body of the constructor under its guard: a stream that came with an error is destroyed.
  unfoldable pub open_stream : Device → W → Result State × W
  open_stream device w =
      let (status, stream, w1) = f.stream_create w in
      let w2 = (f.stream_destroy stream w1).1 in
      let allocation_stream = if type_eq device.type nvidia then stream else 0 in
      if status == 0
      then (ok (initial_state device stream allocation_stream), w1)
      else (err create_stream, if stream == 0 then w1 else w2)

  unfoldable pub create : Device → W → Result State × W
  unfolding open_stream construct destroy
  create device w =
      let (guard, w1) = construct f device.type device.index w in
      let (r, w2) = open_stream device w1 in
      if type_eq device.type count
      then (err invalid_device, w)
      else if guard.active
      then (r, destroy f guard w2)
      else (err cannot_select, destroy f guard w1)

  -- The loop of the destructor: every block with a pointer is freed, failures are only reported.
  unfoldable pub free_all : State → List (ℕ × ℕ) → W → W
  unfolding free_block
  free_all s [] w = w
  free_all s ((p, i) ∷ rest) w =
      free_all s rest (if (s.heap i).ptr == 0 then w else (free_block f (s.heap i).ptr s w).1)

  -- The destructor under its guard: nothing is freed before the stream is known to be idle.
  unfoldable pub close_stream : State → W → W
  unfolding free_all
  close_stream s w =
      let (drained, w1) = f.stream_synchronize s.stream w in
      let freed = free_all s s.all_blocks w1 in
      let (completed, w2) = f.stream_synchronize s.stream freed in
      let w3 = (f.stream_destroy s.stream w2).1 in
      if s.stream == 0
      then free_all s s.all_blocks w
      else if not (drained == 0)
      then w1
      else if not (completed == 0)
      then w2
      else w3

  unfoldable pub close : State → W → W
  unfolding close_stream construct destroy
  close s w =
      let (guard, w1) = construct f s.device.type s.device.index w in
      if guard.active then destroy f guard (close_stream s w1) else destroy f guard w1
