-- ===== src/Control/Gate.antt =====
-- control.go: who may start a backfill, and who may watch a chat.
use wa_agent_pipeline.Base.{
  Text, ◌≡◌, ◌≢◌, ◌⊎◌, inl, inr, refl, true, false, not, ◌&&◌, Option, some, [], ◌++◌, arith,
  Option-cases, ok, ◌==◌, ==_iff, text_eq, nat_eq, length, Bool-cases,
}
use wa_agent_pipeline.Texts.{text}
use wa_agent_pipeline.Config.{Group, has_tenant}
use wa_agent_pipeline.Config.Manager.{Manager}
use wa_agent_pipeline.Control.{
  Request, Executor, Answer, watching, refuse, op_backfill, op_watch, normalize_request,
  run_backfill, exact_tenant, handle_listed, handle_chat, group_in, handle_request, handle_conn,
}

-- The request names a chat of the allowlist, of the tenant's where it names a tenant.
abbrev pub Owns : Option Manager → Request → Group → Type 0
Owns config req g =
    (group_in config req.chat_jid ≡ some g) × ((req.tenant ≡ []) ⊎ (has_tenant g req.tenant ≡ true))

-- The request's tenant is the chat's only one.
abbrev pub OwnsAlone : Option Manager → Request → Group → Type 0
OwnsAlone config req g =
    (group_in config req.chat_jid ≡ some g)
    × (req.tenant ≢ [])
    × (length g.tenants ≡ 1)
    × (has_tenant g req.tenant ≡ true)

module _ {S : Type 0} (quote : Text → Text) (executor : Executor S) where
  -- The three ways in which a connection is answered.
  pub data Answered (config : Option Manager) (req : Request) (s : S) (out : Answer × S)
      : Type 0 where
    refused : (reason : Text) → out ≡ (refuse reason, s) → Answered config req s out
    watched :
        (g : Group)
        → req.op ≡ op_watch
        → OwnsAlone config req g
        → out ≡ (watching req, s)
        → Answered config req s out
    executed :
        (g : Group)
        → req.op ≡ op_backfill
        → Owns config req g
        → out ≡ run_backfill quote executor req s
        → Answered config req s out

  handle_listed-Answered :
      (config : Option Manager) (req : Request) (g : Group) (s : S)
      → group_in config req.chat_jid ≡ some g
      → (req.op ≡ op_backfill) ⊎ (req.op ≡ op_watch)
      → Answered config req s (handle_listed quote executor g req s)
  unfolding handle_listed
  handle_listed-Answered config req g s e o =
      elim (Bool-cases (not (req.tenant == []) && not (has_tenant g req.tenant))) [
        | inl foreign ↦ refused (text "jid_not_owned_by_tenant") (ground (arith, foreign))
        | inr owned ↦ elim o [
          | inl b ↦
              executed g b (e, ground (arith, owned, ==_iff req.tenant []))
                (ground (arith, owned, b, ==_iff req.op op_watch))
          | inr w ↦ elim (Bool-cases (exact_tenant g req.tenant)) [
            | inl alone ↦
                watched g w
                  (
                    e,
                    ground (arith, alone, ==_iff req.tenant []),
                    ground (arith, alone),
                    ground (arith, alone),
                  )
                  (ground (arith, owned, alone, w, ==_iff req.op op_watch))
            | inr shared ↦
                refused (text "change subscription requires an exact single-tenant chat")
                  (ground (arith, owned, shared, w, ==_iff req.op op_watch))
          ]
        ]
      ]

  handle_chat-Answered :
      (config : Option Manager) (req : Request) (s : S)
      → (req.op ≡ op_backfill) ⊎ (req.op ≡ op_watch)
      → Answered config req s (handle_chat quote executor (group_in config req.chat_jid) req s)
  handle_chat-Answered config req s o = elim (Option-cases (group_in config req.chat_jid)) [
    | inl e ↦ rw e (refused _ refl)
    | inr (g, e) ↦ rw e (handle_listed-Answered config req g s e o)
  ]

  known_op :
      (op : Text)
      → (not (op == op_backfill) && not (op == op_watch)) ≡ false
      → (op ≡ op_backfill) ⊎ (op ≡ op_watch)
  known_op op h = elim (Bool-cases (op == op_backfill)) [
    | inl b ↦ inl ((==_iff op op_backfill).0 b)
    | inr n ↦ inr ((==_iff op op_watch).0 (ground (arith, h, n)))
  ]

  handle_request-Answered :
      (config : Option Manager) (req : Request) (s : S)
      → Answered config req s (handle_request quote executor config req s)
  unfolding handle_request
  handle_request-Answered config req s =
      elim (Bool-cases (not (req.op == op_backfill) && not (req.op == op_watch))) [
        | inl unknown ↦ refused (text "unsupported op " ++ quote req.op) (ground (arith, unknown))
        | inr known ↦ elim (Bool-cases (req.chat_jid == [])) [
          | inl unnamed ↦
              refused (text "backfill requires chat_jid") (ground (arith, known, unnamed))
          | inr named ↦
              rw (known, named) (handle_chat-Answered config req s (known_op req.op known))
        ]
      ]

  -- A decoded request is answered, as normalized, in one of three ways. It is refused: one done
  -- event with the verdict ERROR, and nothing is run. Or it becomes a subscription, nothing is run,
  -- and then its op is watch_ingest and its tenant the only one of its chat. Or the executor runs,
  -- and then its op is backfill, its chat is in the allowlist, and its tenant, if it names one, is
  -- one of the chat's.
  pub handle_conn-Answered :
      (config : Option Manager) (req : Request) (s : S)
      → Answered config (normalize_request req) s (handle_conn quote executor config (ok req) s)
  unfolding handle_conn
  handle_conn-Answered config req s = handle_request-Answered config (normalize_request req) s
