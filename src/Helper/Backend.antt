-- ===== src/Helper/Backend.antt =====
-- apps/runtime-helper/src/lib.rs: `RuntimeBackend`, the boundary to Docker, and the parsing of what
-- `docker container inspect` prints. What Docker does is a parameter: a backend over a world `W`.
pub mod Parse
use nopager.Prelude.{Text, Result, ok, err}
use nopager.Protocol.{ContainerState}

pub data BackendError : Type 0 where
  daemon_unavailable not_found timeout command_failed invalid_inspect_output io : BackendError

-- Each call answers and moves the world on.
pub record RuntimeBackend (W : Type 0) : Type 0 where
  pub daemon_available : W → Result BackendError (Unit {0}) × W
  pub inspect : Text → W → Result BackendError ContainerState × W
  pub restart_exact : Text → W → Result BackendError (Unit {0}) × W
