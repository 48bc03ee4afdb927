-- ===== src/Control/Dialing.antt =====
-- control.go: `RunBackfillClient`, from the dial to the exit code, and what it prints. The connection
-- is what it answers: an error at the dial or at the request, and then the lines of the daemon.
pub mod Scan
pub mod Results
pub mod Answered
use wa_agent_pipeline.Base.{
  ℕ, suc, Text, Bool, true, false, Option, none, some, Result, ok, err, List, [], ◌∷◌, ◌++◌, ◌==◌,
  text_eq, if◌then◌else◌,
}
use wa_agent_pipeline.Base.Int.{ℤ, pos}
use wa_agent_pipeline.Texts.{text, join}
use wa_agent_pipeline.Texts.Decimal.{print_int}
use wa_agent_pipeline.Control.{Request, Anchor, Event, event_done, exit_code_for_verdict}
use wa_agent_pipeline.Control.Client.{client_request}

-- `write n` is the error of the n-th write to the output.
pub record Link : Type 0 where
  pub dial : Text → Option Text
  pub send : Request → Option Text
  pub lines : Request → List Text
  pub scan_error : Option Text
  pub decode : Text → Result Text Event
  pub write : ℕ → Option Text

-- The exit code and the error, and what was printed.
pub record Ended : Type 0 where
  pub code : ℕ
  pub error : Option Text
  pub output : Text

module _ (rfc3339 : ℤ → Text) where
  abbrev print_nat : ℕ → Text
  print_nat n = print_int (pos n)

  abbrev human_anchor : Option Anchor → Text
  human_anchor none = []
  human_anchor (some a) =
      text " anchor_chat="
      ++ a.chat_jid
      ++ text " anchor_msg_id="
      ++ a.msg_id
      ++ text " anchor_ts="
      ++ rfc3339 a.timestamp

  abbrev human_chats : List Text → Text
  human_chats [] = []
  human_chats (chat ∷ rest) = text " chats=" ++ join (text ",") (chat ∷ rest)

  abbrev human_verdict : Text → Text → Text
  human_verdict verdict [] = text "Verdict: " ++ verdict
  human_verdict verdict (c ∷ reason) =
      text "Verdict: " ++ verdict ++ text " (" ++ c ∷ reason ++ text ")"

  -- Without the line break at its end.
  abbrev human_event : Event → Text
  human_event evt =
      if evt.event == text "request_sent"
      then text "Request sent: send_id="
        ++ evt.send_id
        ++ text " requested="
        ++ print_nat evt.requested
        ++ human_anchor evt.anchor
      else if evt.event == text "history_sync_received"
      then text "History sync received: messages="
        ++ print_nat evt.messages
        ++ text " media_envelopes="
        ++ print_nat evt.media_envelopes
        ++ human_chats evt.chats
      else if evt.event == text "ingested"
      then text "Ingested: rows_inserted="
        ++ print_nat evt.rows_inserted
        ++ text " rows_updated="
        ++ print_nat evt.rows_updated
        ++ text " media_hydrated="
        ++ print_nat evt.media_hydrated
      else if evt.event == event_done
      then human_verdict evt.verdict evt.reason
      else evt.event

  unfoldable pub print_human_event : Event → Text
  unfolding join print_int
  print_human_event evt = human_event evt ++ text "\n"

  module _ (link : Link) where
    abbrev pub ended : ℕ → Text → Text → Ended
    ended code e output = record { code = code; error = some e; output = output }

    abbrev pub final_of : Option Event → Event → Option Event
    final_of final evt = if evt.event == event_done then some evt else final

    -- After the last line.
    abbrev pub conclude : Option Event → Text → Ended
    conclude none output =
        ended 1 (text "daemon closed the control connection without a done event") output
    conclude (some final) output = record {
      code = exit_code_for_verdict final.verdict;
      error = none;
      output = output;
    }

    abbrev pub at_end : Option Text → Option Event → Text → Ended
    at_end (some e) final output = ended 1 e output
    at_end none final output = conclude final output

    -- The loop over the lines: the number of writes, and the last done event so far.
    unfoldable pub scan : Bool → ℕ → Option Event → Text → List Text → Ended
    unfolding print_human_event exit_code_for_verdict
    scan human n final output [] = at_end link.scan_error final output
    scan human n final output (line ∷ rest) = elim (link.decode line) [
      | err e ↦ ended 1 (text "decode daemon event: " ++ e) output
      | ok evt ↦
          if human
          then scan human n (final_of final evt) (output ++ print_human_event evt) rest
          else elim (link.write n) [
            | some e ↦ ended 1 e output
            | none ↦ scan human (suc n) (final_of final evt) (output ++ line ++ text "\n") rest
          ]
    ]

    abbrev sent : Bool → Request → Option Text → Ended
    sent human req (some e) = ended 1 e []
    sent human req none = scan human 0 none [] (link.lines req)

    abbrev dialed : Text → Bool → Request → Option Text → Ended
    dialed socket human req (some e) =
        ended 1
          (text "daemon not running or control socket unavailable at " ++ socket ++ text ": " ++ e)
          []
    dialed socket human req none = sent human req (link.send req)

    unfoldable pub run_backfill_client : Text → Bool → Request → Ended
    unfolding scan
    run_backfill_client socket human r = dialed socket human (client_request r) (link.dial socket)
