-- ===== src/Engine/Docker.antt =====
-- What the engine manager relies on of Docker, as hypotheses on the machine, and how far each of its
-- operations changes which containers run.
use single_gpu_ai_services.Base.{
  ℕ, ◌≡◌, ◌≢◌, Bool, true, false, String, ◌==◌, codes, strip, eq_codes, or_default,
}
use single_gpu_ai_services.Runner.{
  Command, docker_start, docker_inspect, Process, exited, timed_out, exit_status,
}
use single_gpu_ai_services.Engine.{Machine, is_missing_message}

abbrev pub starts : String → Command → Bool
starts c (docker_start d) = d == c
starts c _ = false

-- The processes whose answer to `docker inspect` says that the container does not run.
abbrev pub says_down : Process → Bool
says_down (exited out) = eq_codes (strip (codes out)) (codes "false")
says_down (exit_status n stderr) = is_missing_message (or_default stderr "")
says_down _ = false

-- `is_up c w`: the container `c` runs. `is_pending c w`: a start of it that its client gave up on may
-- still take effect.
module _ (m : Machine) where
  -- A step of the machine that does not bring `c` up.
  pub record Quiet (is_up is_pending : String → m.World → Bool) (c : String) (w w' : m.World)
      : Type 0 where
    pub calm : is_pending c w ≡ false → is_pending c w' ≡ false
    pub low : is_pending c w ≡ false → is_up c w ≡ false → is_up c w' ≡ false

  pub record Docker : Type 0 where
    pub is_up : String → m.World → Bool
    pub is_pending : String → m.World → Bool
    pub clock_Quiet : (c : String) (w : m.World) → Quiet is_up is_pending c w (m.clock w).1
    pub sleep_Quiet : (c : String) (t : ℕ) (w : m.World) → Quiet is_up is_pending c w (m.sleep t w)
    -- Only `docker start c` brings `c` up.
    pub exec_Quiet :
        (c : String) (command : Command) (t : ℕ) (w : m.World)
        → starts c command ≡ false
        → Quiet is_up is_pending c w (m.exec command t w).1
    -- A start whose client saw its end is not pending.
    pub start_ends :
        (c d : String) (t : ℕ) (w : m.World)
        → (m.exec (docker_start d) t w).0 ≢ timed_out
        → is_pending c w ≡ false
        → is_pending c (m.exec (docker_start d) t w).1 ≡ false
    -- What `docker inspect` says of a container that does not run is true.
    pub inspect_true :
        (c : String) (t : ℕ) (w : m.World)
        → says_down (m.exec (docker_inspect c) t w).0 ≡ true
        → is_up c (m.exec (docker_inspect c) t w).1 ≡ false
