-- ===== src/Runner.antt =====
-- dispatcher/runner.py. A command is one of those that the engine manager gives; how its process ended
-- is chosen by the operating system.
use single_gpu_ai_services.Base.{ℕ, Option, String, Result, ok, err, or_default}

-- `docker inspect -f {{.State.Running}} C`, `docker start C`, `docker stop C`, and
-- `curl -fsS --connect-timeout 2 --max-time N URL`.
pub data Command : Type 0 where
  docker_inspect : String → Command
  docker_start : String → Command
  docker_stop : String → Command
  curl : ℕ → String → Command

-- What `subprocess.run` does: it returns the output, or raises `TimeoutExpired`,
-- `CalledProcessError` or another exception.
pub data Process : Type 0 where
  exited : String → Process
  timed_out : Process
  exit_status : ℕ → Option String → Process
  os_error : String → Process

pub data CommandError : Type 0 where
  command_timeout : Command → CommandError
  command_failed : Command → ℕ → String → CommandError
  other_error : String → CommandError

-- `SubprocessRunner.run`; `exc.stderr or ""`.
unfoldable pub run_result : Command → Process → Result CommandError String
run_result command (exited stdout) = ok stdout
run_result command timed_out = err (command_timeout command)
run_result command (exit_status code stderr) =
    err (command_failed command code (or_default stderr ""))
run_result command (os_error e) = err (other_error e)
