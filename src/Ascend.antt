-- ===== src/Ascend.antt =====
-- `Runtime<kAscend>` of src/native/ascend/runtime_.h. The libraries that it calls are a parameter:
-- ACL, the dynamic loader, and the functions behind the pointers that the loader gives. A status is
-- a number, with 0 for `ACL_SUCCESS`; a pointer, stream or handle is a number, with 0 for null.
use Prim.Native.String.{String}
use infini_rt.Base.{
  ℕ, ◌≡◌, Bool, true, false, not, ◌&&◌, ◌||◌, ◌==◌, if◌then◌else◌, Option, none, some,
}
pub mod Epoch
pub mod Graphs
pub mod Backend
pub mod DataTypes

pub record Acl (W : Type 0) : Type 0 where
  -- `ACL_ERROR_REPEAT_INITIALIZE`.
  pub repeat_initialize : ℕ
  pub init : W → ℕ × W
  pub set_device : ℕ → W → ℕ × W
  -- Status and what the out parameter holds, given what it held.
  pub get_device_count : ℕ → W → ℕ × ℕ × W
  -- `dlsym(lib, name)`, with 0 for `RTLD_DEFAULT`, and `dlopen("libascendcl.so", RTLD_NOW)`, with
  -- `RTLD_NOLOAD` or without.
  pub dlsym : ℕ → String → W → ℕ
  pub dlopen : Bool → W → ℕ × W
  -- Calls through a pointer, which comes first.
  pub capture_begin : ℕ → ℕ → ℕ → W → ℕ × W
  pub capture_get_info : ℕ → ℕ → W → ℕ × W
  pub capture_end : ℕ → ℕ → W → ℕ × ℕ × W
  pub execute_async : ℕ → ℕ → ℕ → W → ℕ × W
  pub destroy : ℕ → ℕ → W → ℕ × W

-- `RiApi`: the five pointers.
pub record RiApi : Type 0 where
  pub capture_begin : ℕ
  pub capture_get_info : ℕ
  pub capture_end : ℕ
  pub execute_async : ℕ
  pub destroy : ℕ

unfoldable pub available : RiApi → Bool
available api =
    not (api.capture_begin == 0)
    && not (api.capture_get_info == 0)
    && not (api.capture_end == 0)
    && not (api.execute_async == 0)
    && not (api.destroy == 0)

-- A process: the two function-local statics, once they are initialized, and the world.
pub record Process (W : Type 0) : Type 0 where
  pub initialized : Option ℕ
  pub graph_api : Option RiApi
  pub world : W

-- `Unsupported` and `UnsupportedGraphApi`.
abbrev pub unsupported : ℕ
unsupported = 1

-- The status of a call into the libraries, and the process after it.
abbrev pub returns : {W : Type 0} → Process W → ℕ × W → ℕ × Process W
returns p (status, w) = (status, record p { world = w })

abbrev pub returns_out : {W : Type 0} → Process W → ℕ × ℕ × W → ℕ × ℕ × Process W
returns_out p (status, out, w) = (status, out, record p { world = w })

module _ {W : Type 0} (acl : Acl W) where
  abbrev pub init_status : ℕ → ℕ
  init_status result = if result == acl.repeat_initialize then 0 else result

  abbrev pub ensure_from : Option ℕ → Process W → ℕ × Process W
  ensure_from (some status) p = (status, p)
  ensure_from none p =
      let (result, w) = acl.init p.world in
      (init_status result, record p { initialized = some (init_status result); world = w })

  unfoldable pub ensure_initialized : Process W → ℕ × Process W
  ensure_initialized p = ensure_from p.initialized p

  abbrev pub set_device_from : ℕ → ℕ × Process W → ℕ × Process W
  set_device_from device (status, p) =
      if status == 0 then returns p (acl.set_device device p.world) else (status, p)

  unfoldable pub set_device : ℕ → Process W → ℕ × Process W
  set_device device p = set_device_from device (ensure_initialized p)

  -- `count` is what `*count` holds before the call.
  abbrev pub count_from : ℕ → ℕ × Process W → ℕ × ℕ × Process W
  count_from count (status, p) =
      if status == 0 then returns_out p (acl.get_device_count 0 p.world) else (status, count, p)

  unfoldable pub get_device_count : ℕ → Process W → ℕ × ℕ × Process W
  get_device_count count p = count_from count (ensure_initialized p)

  abbrev pub load_symbols : ℕ → W → RiApi
  load_symbols lib w = record {
    capture_begin = acl.dlsym lib "aclmdlRICaptureBegin" w;
    capture_get_info = acl.dlsym lib "aclmdlRICaptureGetInfo" w;
    capture_end = acl.dlsym lib "aclmdlRICaptureEnd" w;
    execute_async = acl.dlsym lib "aclmdlRIExecuteAsync" w;
    destroy = acl.dlsym lib "aclmdlRIDestroy" w;
  }

  -- The library that is loaded already, or else a fresh load of it.
  abbrev pub open_again : ℕ × W → ℕ × W
  open_again (lib, w) = if lib == 0 then acl.dlopen false w else (lib, w)

  abbrev pub load_from : RiApi → ℕ × W → RiApi × W
  load_from loaded (lib, w) = if lib == 0 then (loaded, w) else (load_symbols lib w, w)

  unfoldable pub load_api : W → RiApi × W
  load_api w =
      let loaded = load_symbols 0 w in
      if available loaded then (loaded, w) else load_from loaded (open_again (acl.dlopen true w))

  abbrev pub graph_api_from : Option RiApi → Process W → RiApi × Process W
  graph_api_from (some api) p = (api, p)
  graph_api_from none p =
      let (api, w) = load_api p.world in (api, record p { graph_api = some api; world = w })

  unfoldable pub graph_api : Process W → RiApi × Process W
  graph_api p = graph_api_from p.graph_api p

  abbrev pub begin_from : ℕ → ℕ → RiApi × Process W → ℕ × Process W
  begin_from stream mode (api, p) =
      if available api
      then returns p (acl.capture_begin api.capture_begin stream mode p.world)
      else (unsupported, p)

  unfoldable pub stream_begin_capture : ℕ → ℕ → Process W → ℕ × Process W
  stream_begin_capture stream mode p = begin_from stream mode (graph_api p)

  -- What follows `CaptureEnd`, and what follows `CaptureGetInfo`; `graph` is what `*graph` holds.
  abbrev pub end_with : ℕ → Process W → ℕ × ℕ × W → ℕ × ℕ × Process W
  end_with graph p (status, model_ri, w) =
      if status == 0
      then (0, model_ri, record p { world = w })
      else (status, graph, record p { world = w })

  abbrev pub end_info : ℕ → ℕ → RiApi → Process W → ℕ × W → ℕ × ℕ × Process W
  end_info stream graph api p (info_status, w) =
      if info_status == 0
      then end_with graph p (acl.capture_end api.capture_end stream w)
      else (info_status, graph, record p { world = w })

  abbrev pub end_from : ℕ → ℕ → RiApi × Process W → ℕ × ℕ × Process W
  end_from stream graph (api, p) =
      if available api
      then end_info stream graph api p (acl.capture_get_info api.capture_get_info stream p.world)
      else (unsupported, graph, p)

  unfoldable pub stream_end_capture : ℕ → ℕ → Process W → ℕ × ℕ × Process W
  stream_end_capture stream graph p = end_from stream graph (graph_api p)

  abbrev pub destroy_from : ℕ → RiApi × Process W → ℕ × Process W
  destroy_from graph (api, p) =
      if (api.destroy == 0) || (graph == 0)
      then (0, p)
      else returns p (acl.destroy api.destroy graph p.world)

  unfoldable pub graph_destroy : ℕ → Process W → ℕ × Process W
  graph_destroy graph p = destroy_from graph (graph_api p)

  -- Status and `*graph_exec`.
  abbrev pub graph_instantiate : ℕ → Process W → ℕ × ℕ × Process W
  graph_instantiate graph p = (0, graph, p)

  abbrev pub graph_exec_destroy : ℕ → Process W → ℕ × Process W
  graph_exec_destroy graph_exec p = (0, p)

  abbrev pub launch_from : ℕ → ℕ → RiApi × Process W → ℕ × Process W
  launch_from graph_exec stream (api, p) =
      if available api
      then returns p (acl.execute_async api.execute_async graph_exec stream p.world)
      else (unsupported, p)

  unfoldable pub graph_launch : ℕ → ℕ → Process W → ℕ × Process W
  graph_launch graph_exec stream p = launch_from graph_exec stream (graph_api p)
