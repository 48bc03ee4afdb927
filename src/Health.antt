-- ===== src/Health.antt =====
-- whatsapp-daemon/internal/health/health.go: the daemon's status, and the report written of it.
-- Times are in seconds; the mutex makes each method one step. Encoding the report as JSON is the
-- library's, a parameter.
pub mod Window
use wa_agent_pipeline.Base.{
  ℕ, Text, Bool, false, List, [], ◌∷◌, ◌++◌, Result, length, select, if◌then◌else◌,
}
use wa_agent_pipeline.Base.Int.{ℤ, pos, ltb_ℤ, sub64}
use wa_agent_pipeline.Texts.{text}
use wa_agent_pipeline.Files.{Files, FileAction, ◌>>◌, step_over, open_truncate, write_all, rename}

pub record Status : Type 0 where
  pub connected : Bool
  pub logged_in : Bool
  pub last_message_at : ℤ
  pub queue_depth : ℕ
  pub ipc_listening : Bool
  pub media_failures : List ℤ

-- `NewStatus`
abbrev pub new_status : Status
new_status = record {
  connected = false;
  logged_in = false;
  last_message_at = pos 0;
  queue_depth = 0;
  ipc_listening = false;
  media_failures = [];
}

unfoldable pub set_connected : Bool → Status → Status
set_connected v s = record s { connected = v; logged_in = if v then s.logged_in else false }

unfoldable pub set_connection : Bool → Bool → Status → Status
set_connection connected logged_in s = record s { connected = connected; logged_in = logged_in }

unfoldable pub set_queue_depth : ℕ → Status → Status
set_queue_depth n s = record s { queue_depth = n }

unfoldable pub set_ipc_listening : Bool → Status → Status
set_ipc_listening v s = record s { ipc_listening = v }

unfoldable pub message_at : ℤ → Status → Status
message_at t s = record s { last_message_at = t }

unfoldable pub media_failure : ℤ → Status → Status
media_failure t s = record s { media_failures = s.media_failures ++ t ∷ [] }

-- `pruneLocked`: what is after the cutoff stays.
unfoldable pub prune : ℤ → Status → Status
prune cutoff s = record s { media_failures = select (λ t. ltb_ℤ cutoff t) s.media_failures }

-- The body of health.json.
pub record Report : Type 0 where
  pub last_message_at : ℤ
  pub connected : Bool
  pub logged_in : Bool
  pub queue_depth : ℕ
  pub ipc_listening : Bool
  pub media_failures_5m : ℕ
  pub updated_at : ℤ

abbrev pub five_minutes : ℤ
five_minutes = pos 300

unfoldable pub report : ℤ → Status → Report
report now s = record {
  last_message_at = s.last_message_at;
  connected = s.connected;
  logged_in = s.logged_in;
  queue_depth = s.queue_depth;
  ipc_listening = s.ipc_listening;
  media_failures_5m = length s.media_failures;
  updated_at = now;
}

-- os.WriteFile(path, bytes, 0600)
unfoldable pub write_file : Text → List ℕ → FileAction Unit
write_file path bytes = open_truncate path >> write_all path bytes >> step_over

-- `Write`: the failures are pruned also where the file cannot be written.
unfoldable pub write :
    (Report → List ℕ) → Text → ℤ → Status × Files → Result Text Unit × (Status × Files)
unfolding prune report write_file
write encode path now (s, fs) =
    let s' = prune (sub64 now five_minutes) s in
    let tmp = path ++ text ".tmp" in
    let (r, fs') =
      (step_over >> write_file tmp (encode (report now s') ++ b'\n' ∷ []) >> rename tmp path) fs in
    (r, (s', fs'))
