-- ===== src/Tests/Socket.antt =====
-- The theorem on the control socket, at a socket that a daemon has left behind.
use wa_agent_pipeline.Base.{ℕ, refl, true, false, none, some, List, []}
use wa_agent_pipeline.Base.Int.{pos}
use wa_agent_pipeline.Texts.{text}
use wa_agent_pipeline.Health.{Report, new_status}
use wa_agent_pipeline.Control.Socket.{socket, Calls, Host, start}
use wa_agent_pipeline.Control.Socket.Starting.{Started, start-Started}
use wa_agent_pipeline.Tests.{no_faults}

abbrev no_bytes : Report → List ℕ
no_bytes _ = []

abbrev every_call : Calls
every_call = record {
  mkdir = none;
  chmod_dir = none;
  lstat = none;
  dial = some (text "connection refused");
  remove_stale = none;
  resolve = none;
  listen = none;
  chmod_socket = none;
  unlink = none;
  close_listener = none;
  remove = none;
}

abbrev left_behind : Host
left_behind = record {
  entry = socket false;
  private_dir = false;
  private_socket = false;
  listening = false;
  closed = false;
  status = some new_status;
  files = no_faults;
}

start-Started_example :
    Started no_bytes
      (text "health.json")
      (pos 100)
      every_call
      (text "/run/control.sock")
      true
      left_behind
      (start no_bytes
        (text "health.json")
        (pos 100)
        every_call
        (text "/run/control.sock")
        true
        left_behind)
start-Started_example =
    start-Started no_bytes (text "health.json") (pos 100) every_call (text "/run/control.sock") true
      left_behind refl refl
