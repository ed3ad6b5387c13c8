-- ===== src/Guard.antt =====
-- `DeviceGuard` of include/infini/rt/device_guard.h. The lines that it writes to stderr are left out.
pub mod Selection
use infini_rt.Base.{ℕ, Bool, true, false, not, ◌&&◌, ◌||◌, ◌==◌, if◌then◌else◌, List, [], ◌∷◌}
use infini_rt.Device.{DeviceType, type_eq, all_device_types}
use infini_rt.Facade.{Facade}

pub record Guard : Type 0 where
  pub previous_type : DeviceType
  pub previous_index : ℕ
  pub restore_index : Bool
  pub active : Bool
  pub restored : Bool

module _ {W : Type 0} (f : Facade W) where
  -- The fold over `List<types...>`.
  unfoldable pub enabled : DeviceType → List DeviceType → Bool
  enabled t [] = false
  enabled t (u ∷ us) = (type_eq t u && f.device_enabled u) || enabled t us

  unfoldable pub restore : Guard → W → Guard × W
  restore g w =
      let w' = f.set_runtime_device_type g.previous_type w in
      if g.restored then (g, w) else (
        record g { restored = true },
        if g.restore_index then (f.set_device g.previous_index w').1 else w',
      )

  -- The first constructor, from the switch to the target on.
  unfoldable pub select : Guard → DeviceType → ℕ → W → Guard × W
  unfolding restore
  select g target_type target_index w =
      let (status, w') = f.set_device target_index (f.set_runtime_device_type target_type w) in
      let g' : Guard = record g { active = status == 0 } in
      if status == 0 then (g', w') else restore g' w'

  unfoldable pub construct : DeviceType → ℕ → W → Guard × W
  unfolding enabled select
  construct target_type target_index w =
      let (status, index) = f.get_device w in
      let previous_type = f.runtime_device_type w in
      let known : Guard = record {
        previous_type = previous_type;
        previous_index = index;
        restore_index = status == 0;
        active = false;
        restored = false;
      } in
      if not (enabled target_type all_device_types)
      then (
        record {
          previous_type = previous_type;
          previous_index = 0;
          restore_index = false;
          active = false;
          restored = true;
        },
        w,
      )
      else if (status == 0) && type_eq previous_type target_type && (index == target_index)
      then (record known { active = true }, w)
      else select known target_type target_index w

  -- The destructor.
  unfoldable pub destroy : Guard → W → W
  unfolding restore
  destroy g w = (restore g w).1
