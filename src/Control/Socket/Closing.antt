-- ===== src/Control/Socket/Closing.antt =====
-- control.go: what `Close` leaves of the socket.
use mathlib.Core.Path.{subst}
use wa_agent_pipeline.Base.{
  ℕ, Text, ◌≡◌, ◌⊎◌, inl, inr, refl, sym, ◌∙◌, Bool, true, false, Option, none, some, ok, List,
  text_eq, arith,
}
use wa_agent_pipeline.Base.Int.{ℤ}
use wa_agent_pipeline.Health.{Status, Report, set_ipc_listening, prune, write}
use wa_agent_pipeline.Control.Socket.{
  absent, socket, Calls, Host, reported, report_ipc, removed, closed_listener, close,
}

-- What the status says of the socket.
abbrev pub says : Option Status → Option Bool
says none = none
says (some s) = some s.ipc_listening

module _ (encode : Report → List ℕ) (health_path : Text) (now : ℤ) (calls : Calls)
    (path : Text) where
  -- The report changes the status alone.
  pub reported-says :
      (v : Bool) (s : Option Status) (h : Host)
      → h.status ≡ s
      → (says (reported encode health_path now calls path v s h).status ≡ none)
        ⊎ (says (reported encode health_path now calls path v s h).status ≡ some v)
  unfolding write prune set_ipc_listening
  reported-says v none h e = inl (ground (arith, e))
  reported-says v (some s) h e = inr refl

  pub reported_kept :
      (v : Bool) (s : Option Status) (h : Host)
      → let h' = reported encode health_path now calls path v s h in
        (h'.entry ≡ h.entry)
        × (h'.private_dir ≡ h.private_dir)
        × (h'.private_socket ≡ h.private_socket)
        × (h'.listening ≡ h.listening)
        × (h'.closed ≡ h.closed)
  reported_kept v none h = (refl, refl, refl, refl, refl)
  reported_kept v (some s) h = (refl, refl, refl, refl, refl)

  pub removed-listening :
      (c : Option Text) (h : Host)
      → (removed encode health_path now calls path c h).listening ≡ h.listening
  removed-listening none h = refl
  removed-listening (some e) h = refl

  removed-absent :
      (c : Option Text) (h : Host)
      → c ≡ none
      → (removed encode health_path now calls path c h).entry ≡ absent
  removed-absent none h e = refl
  removed-absent (some x) h e = absurd (ground (arith, e))

  closed_listener-listening :
      (open_yet : Bool) (h : Host)
      → h.listening ≡ open_yet
      → (closed_listener encode health_path now calls path open_yet h).1.listening ≡ false
  closed_listener-listening false h e = e
  closed_listener-listening true h e =
      removed-listening calls.unlink (record h { listening = false; entry = socket false })

  -- The server is closed: it does not listen, the status says so, nothing is left at the path where
  -- it can be removed, and to close it again does nothing.
  pub record Closed (h : Host) : Type 0 where
    pub silent : h.listening ≡ false
    pub said : (says h.status ≡ none) ⊎ (says h.status ≡ some false)
    pub gone : calls.remove ≡ none → h.entry ≡ absent
    pub once : close encode health_path now calls path h ≡ (ok tt, h)

  -- What the first call leaves.
  abbrev after_close : Host → Host
  after_close h =
      let (_, h₁) = closed_listener encode health_path now calls path h.listening h in
      let h₂ = removed encode health_path now calls path calls.remove h₁ in
      record (reported encode health_path now calls path false h₂.status h₂) { closed = true }

  close_first :
      (h : Host) → h.closed ≡ false → (close encode health_path now calls path h).1 ≡ after_close h
  unfolding close report_ipc
  close_first h live = ground (arith, live)

  after_close-Closed : (h : Host) → Closed (after_close h)
  unfolding close
  after_close-Closed h =
      let (_, h₁) = closed_listener encode health_path now calls path h.listening h in
      let h₂ = removed encode health_path now calls path calls.remove h₁ in
      let (entry, _, _, listening, _) = reported_kept false h₂.status h₂ in
      record {
        silent =
            listening
            ∙ removed-listening calls.remove h₁
            ∙ closed_listener-listening h.listening h refl;
        said = reported-says false h₂.status h₂ refl;
        gone = λ e. entry ∙ removed-absent calls.remove h₁ e;
        once = refl;
      }

  pub close-Closed :
      (h : Host) → h.closed ≡ false → Closed (close encode health_path now calls path h).1
  close-Closed h live = subst Closed (sym (close_first h live)) (after_close-Closed h)
