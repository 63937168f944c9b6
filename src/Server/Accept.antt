-- ===== src/Server/Accept.antt =====
-- crates/ohmcpd/src/server.rs: `ServerConfig` and `run_with`, from a bound socket on. What the daemon
-- waits for is an event; the order of the events is any. Of a connection only its permit and its task
-- count here; what its session does is in Dispatch.
pub mod Limit
use ohmcp.Base.{◌∷◌, [], List, false, true, Bool, ◌-◌, ◌+◌, suc, ℕ, if◌then◌else◌, ◌==◌}

pub record ServerConfig : Type 0 where
  pub max_connections : ℕ
  pub shutdown_grace : ℕ

-- `ServerConfig::default`, the grace in seconds.
abbrev pub default_config : ServerConfig
default_config = record { max_connections = 256; shutdown_grace = 5 }

-- The loop accepts; it has ended and waits for the sessions; `run_with` has returned, and all sessions
-- had ended or not; it has returned the error of `accept`.
pub data Phase : Type 0 where
  listening : Phase
  draining : Phase
  stopped : Bool → Phase
  aborted : Phase

-- The permits of the limiter, the sessions that run, the tasks that have ended and are still in the
-- `JoinSet`, and the connections that were rejected.
pub record Daemon : Type 0 where
  pub permits : ℕ
  pub running : ℕ
  pub unjoined : ℕ
  pub rejected : ℕ
  pub phase : Phase

abbrev pub daemon_at_start : ServerConfig → Daemon
daemon_at_start config = record {
  permits = config.max_connections;
  running = 0;
  unjoined = 0;
  rejected = 0;
  phase = listening;
}

pub data Happening : Type 0 where
  connects : Happening
  accept_fails : Happening
  session_ends : Happening
  shuts_down : Happening
  grace_over : Happening

-- A connection gets a permit and a task, or the error of `reject_busy` without waiting.
abbrev pub accepted : Daemon → Daemon
accepted d =
    if d.permits == 0
    then record d { rejected = suc d.rejected }
    else record d { permits = d.permits - 1; running = suc d.running }

-- The task of a session ends and gives its permit back.
abbrev pub ended : Daemon → Daemon
ended d =
    if d.running == 0
    then d
    else record d { permits = suc d.permits; running = d.running - 1; unjoined = suc d.unjoined }

-- `join_next` has taken all tasks that ended; none is left when no session runs.
abbrev pub joined : Daemon → Daemon
joined d = record d { unjoined = 0; phase = if d.running == 0 then stopped true else draining }

-- `run_with` returns, and the tasks that still run are aborted with the `JoinSet`.
abbrev pub returns_in : Phase → Daemon → Daemon
returns_in phase d = record d {
  permits = d.permits + d.running;
  running = 0;
  unjoined = 0;
  phase = phase;
}

abbrev pub on_listening : Happening → Daemon → Daemon
on_listening connects d = accepted d
on_listening accept_fails d = returns_in aborted d
on_listening session_ends d = ended d
on_listening shuts_down d = joined d
on_listening grace_over d = d

-- The listener is gone, so nothing connects any more.
abbrev pub on_draining : Happening → Daemon → Daemon
on_draining session_ends d = joined (ended d)
on_draining grace_over d = returns_in (stopped false) d
on_draining _ d = d

abbrev pub in_phase : Phase → Happening → Daemon → Daemon
in_phase listening e d = on_listening e d
in_phase draining e d = on_draining e d
in_phase (stopped b) e d = d
in_phase aborted e d = d

unfoldable pub happens : Happening → Daemon → Daemon
happens e d = in_phase d.phase e d

unfoldable pub run_with : List Happening → Daemon → Daemon
unfolding happens
run_with [] d = d
run_with (e ∷ es) d = run_with es (happens e d)
