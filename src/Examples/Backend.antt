-- ===== src/Examples/Backend.antt =====
-- A runtime that hands out increasing addresses, selects any device, and never captures.
use infini_rt.Base.{
  ℕ, suc, ◌≡◌, refl, ltb, ◌==◌, ◌&&◌, if◌then◌else◌, List, [], ◌∷◌, Bool, true, false, arith, count,
  remove, count-remove, inl,
}
use infini_rt.Device.{DeviceType, cpu}
use infini_rt.Facade.{Facade, SelectsDevices, Allocates, Answers}

pub record World : Type 0 where
  pub type : DeviceType
  pub index : ℕ
  pub top : ℕ
  pub held : List ℕ

abbrev allocated : World → ℕ → Bool
allocated w p = ltb 0 (count p w.held) && ltb p (suc w.top)

abbrev take_next : World → World
take_next w = record w { top = suc w.top; held = suc w.top ∷ w.held }

abbrev give : ℕ → World → World
give p w = record w { held = remove p w.held }

abbrev pub simulated : Facade World
simulated = record {
  device_enabled = λ t. true;
  with_nvidia = true;
  runtime_device_type = λ w. w.type;
  set_runtime_device_type = λ t w. record w { type = t };
  get_device = λ w. (0, w.index);
  set_device = λ i w. (0, record w { index = i });
  malloc = λ n w. (0, suc w.top, take_next w);
  malloc_async = λ n st w. (0, suc w.top, take_next w);
  free = λ p w. (0, give p w);
  free_async = λ p st w. (0, give p w);
  stream_create = λ w. (0, 77, w);
  stream_destroy = λ st w. (0, w);
  stream_synchronize = λ st w. (0, w);
  is_capturing = λ st w. (0, false);
}

pub simulated-SelectsDevices : SelectsDevices simulated
simulated-SelectsDevices = record {
  type-set_type = λ t w. refl;
  type-set_device = λ i w. refl;
  get_device-set_device = λ i w h. refl;
}

take_next-Answers : (w : World) → Answers allocated w 0 (suc w.top) (take_next w)
take_next-Answers w = inl (refl, omega arith, ground arith, λ q. ground arith)

give-live :
    (p q : ℕ) (w : World)
    → allocated (give p w) q ≡ (if (0 == 0) && (q == p) then false else allocated w q)
give-live p q w = ground (arith, count-remove q p w.held)

pub simulated-Allocates : Allocates simulated
simulated-Allocates = record {
  live = allocated;
  malloc-Answers = λ n w h. take_next-Answers w;
  malloc_async-Answers = λ n st w h. take_next-Answers w;
  live-free = λ p q w. give-live p q w;
  live-free_async = λ p st q w. give-live p q w;
  live-set_type = λ t q w. refl;
  live-set_device = λ i q w. refl;
  live-synchronize = λ st q w. refl;
  live-destroy = λ st q w. refl;
  live-create = λ q w. refl;
}

abbrev pub start : World
start = record { type = cpu; index = 0; top = 0; held = [] }
