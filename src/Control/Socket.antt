-- ===== src/Control/Socket.antt =====
-- control.go: the control socket of the daemon, from `Start` to `Close`. The environment decides
-- which calls fail; the listener of package net unlinks its socket when it is closed. The goroutine
-- that accepts connections is not part of this state.
pub mod Closing
pub mod Starting
use wa_agent_pipeline.Base.{
  ℕ, Text, Bool, true, false, not, ◌&&◌, Option, none, some, Result, ok, err, List, [], ◌++◌, ◌==◌,
  text_eq, if◌then◌else◌,
}
use wa_agent_pipeline.Base.Int.{ℤ}
use wa_agent_pipeline.Texts.{text, trim_space}
use wa_agent_pipeline.Files.{Files}
use wa_agent_pipeline.Health.{Status, Report, set_ipc_listening, write}

-- What stands at the path of the socket: nothing, a socket that a process listens on or that was
-- left behind, or something else.
pub data Entry : Type 0 where
  absent : Entry
  socket : Bool → Entry
  other_file : Entry

-- The error of each call, where it fails.
pub record Calls : Type 0 where
  pub mkdir : Option Text
  pub chmod_dir : Option Text
  pub lstat : Option Text
  pub dial : Option Text
  pub remove_stale : Option Text
  pub resolve : Option Text
  pub listen : Option Text
  pub chmod_socket : Option Text
  pub unlink : Option Text
  pub close_listener : Option Text
  pub remove : Option Text

-- The server, with the path and the status that it acts on. `closed` is whether `closeOnce` is done.
pub record Host : Type 0 where
  pub entry : Entry
  pub private_dir : Bool
  pub private_socket : Bool
  pub listening : Bool
  pub closed : Bool
  pub status : Option Status
  pub files : Files

abbrev pub Outcome : Type 0
Outcome = Result Text Unit × Host

-- if err := call; err != nil { return err }
abbrev pub call : Option Text → (Host → Outcome) → Host → Outcome
call (some e) next h = (err e, h)
call none next h = next h

abbrev pub is_none : Option Text → Bool
is_none none = true
is_none (some _) = false

abbrev result_of : Option Text → Result Text Unit
result_of none = ok tt
result_of (some e) = err e

module _ (encode : Report → List ℕ) (health_path : Text) (now : ℤ) (calls : Calls)
    (path : Text) where
  abbrev pub reported : Bool → Option Status → Host → Host
  reported v none h = h
  reported v (some s) h =
      let (_, (s', fs)) = write encode health_path now (set_ipc_listening v s, h.files) in
      record h { status = some s'; files = fs }

  -- s.Status.SetIPCListening(v), and Write
  unfoldable pub report_ipc : Bool → Host → Host
  unfolding set_ipc_listening write
  report_ipc v h = reported v h.status h

  abbrev pub removed : Option Text → Host → Host
  removed (some _) h = h
  removed none h = record h { entry = absent }

  -- (*net.UnixListener).Close: the socket is left behind where it cannot be unlinked.
  abbrev pub shut : Host → Host
  shut h = removed calls.unlink (record h { listening = false; entry = socket false })

  -- What stands at the path.
  abbrev pub cleared : Entry → (Host → Outcome) → Host → Outcome
  cleared absent next h = next h
  cleared other_file next h =
      (err (text "control socket path exists and is not a socket: " ++ path), h)
  cleared (socket in_use) next h =
      if in_use && is_none calls.dial
      then (err (text "control socket already in use: " ++ path), h)
      else call calls.remove_stale (λ h'. next (record h' { entry = absent })) h

  -- `prepareSocketPath`, and what comes after it.
  abbrev pub prepare_socket_path : (Host → Outcome) → Host → Outcome
  prepare_socket_path next = call calls.mkdir (
      call calls.chmod_dir
        λ h. call calls.lstat (cleared h.entry next) (record h { private_dir = true }))

  abbrev pub guarded : Option Text → Host → Outcome
  guarded (some e) h = (err e, removed calls.remove (shut h))
  guarded none h = (ok tt, report_ipc true (record h { private_socket = true }))

  -- bind makes the socket, as nothing stands at its path.
  abbrev pub bound : Host → Outcome
  bound h = guarded calls.chmod_socket (record h { entry = socket true; listening = true })

  unfoldable pub start : Bool → Host → Outcome
  unfolding report_ipc trim_space
  start has_executor h =
      if trim_space path == []
      then (err (text "missing control socket path"), h)
      else if not has_executor
      then (err (text "missing control executor"), h)
      else prepare_socket_path (call calls.resolve (call calls.listen bound)) h

  abbrev pub closed_listener : Bool → Host → Outcome
  closed_listener false h = (ok tt, h)
  closed_listener true h = (result_of calls.close_listener, shut h)

  unfoldable pub close : Host → Outcome
  unfolding report_ipc
  close h =
      if h.closed
      then (ok tt, h)
      else let (r, h') = closed_listener h.listening h in
        (r, record (report_ipc false (removed calls.remove h')) { closed = true })
