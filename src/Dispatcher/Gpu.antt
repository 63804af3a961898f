-- ===== src/Dispatcher/Gpu.antt =====
-- The dispatcher seen from the GPU: who has it, and what an engine call may do to that.
pub mod Moves
use single_gpu_ai_services.Base.{Bool, true, false, Option, none, some, String}
use single_gpu_ai_services.Dispatcher.State.{Dispatcher, is_ready}
use single_gpu_ai_services.Dispatcher.System.{
  System, Phase, reconciling_engine, looping, starting_engine, stopping_engine, finished, crashed,
}

-- `offline` before the containers are known to be stopped; `lost` when an engine may still run though
-- its lease is over.
pub data Gpu : Type 0 where
  offline : Gpu
  free : Gpu
  loading : String → Gpu
  serving : String → Gpu
  unloading : String → Gpu
  lost : String → Gpu

abbrev pub holder_view : Phase → String → Gpu
holder_view (starting_engine k) j = loading j
holder_view (stopping_engine k) j = unloading j
holder_view _ j = serving j

abbrev pub view_of : Bool → Option String → Phase → Gpu
view_of true none p = free
view_of true (some j) p = holder_view p j
view_of false none p = offline
view_of false (some j) p = lost j

abbrev pub view : System → Gpu
view s = view_of (is_ready s.dispatcher.system_state) s.dispatcher.current s.phase

-- What one event may do. Only a free GPU is given to a lease, and only the lease that has it gives it
-- back. Nothing leads out of `lost`.
pub data Move : Gpu → Gpu → Type 0 where
  keep : (g : Gpu) → Move g g
  online : Move offline free
  load : (j : String) → Move free (loading j)
  loaded : (j : String) → Move (loading j) (serving j)
  load_failed : (j : String) → Move (loading j) free
  load_lost : (j : String) → Move (loading j) (lost j)
  unload : (j : String) → Move (serving j) (unloading j)
  unloaded : (j : String) → Move (unloading j) free
  unload_lost : (j : String) → Move (unloading j) (lost j)

-- The moves that a turn of the loop makes.
pub data Calm : Gpu → Gpu → Type 0 where
  same : (g : Gpu) → Calm g g
  take : (j : String) → Calm free (loading j)
  leave : (j : String) → Calm (serving j) (unloading j)
