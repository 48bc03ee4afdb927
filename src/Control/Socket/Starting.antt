-- ===== src/Control/Socket/Starting.antt =====
-- control.go: what `Start` and `Close` do with what stands at the path of the socket.
use wa_agent_pipeline.Base.{
  ℕ, Text, ◌≡◌, ◌≢◌, ◌⊎◌, inl, inr, refl, ap, ◌∙◌, Bool, true, false, not, ◌&&◌, Option, none, some,
  ok, err, List, [], ◌++◌, ◌==◌, ==_iff, text_eq, if_holds, arith,
}
use wa_agent_pipeline.Base.Int.{ℤ}
use wa_agent_pipeline.Texts.{text, trim_space}
use wa_agent_pipeline.Health.{Report}
use wa_agent_pipeline.Control.Socket.{
  Entry, absent, socket, other_file, Calls, Host, Outcome, call, is_none, reported, report_ipc,
  removed, shut, cleared, prepare_socket_path, guarded, bound, start, close,
}
use wa_agent_pipeline.Control.Socket.Closing.{
  says, reported-says, reported_kept, removed-listening, Closed, close-Closed,
}

module _ (encode : Report → List ℕ) (health_path : Text) (now : ℤ) (calls : Calls)
    (path : Text) where
  -- Why a start fails.
  pub data Prevented (has_executor : Bool) (h : Host) (e : Text) : Type 0 where
    no_path : trim_space path ≡ [] → Prevented has_executor h e
    no_executor : has_executor ≡ false → Prevented has_executor h e
    other_entry : h.entry ≡ other_file → Prevented has_executor h e
    in_use : h.entry ≡ socket true → calls.dial ≡ none → Prevented has_executor h e
    call_failed :
        (calls.mkdir ≡ some e)
          ⊎ (calls.chmod_dir ≡ some e)
          ⊎ (calls.lstat ≡ some e)
          ⊎ (calls.remove_stale ≡ some e)
          ⊎ (calls.resolve ≡ some e)
          ⊎ (calls.listen ≡ some e)
          ⊎ (calls.chmod_socket ≡ some e)
        → Prevented has_executor h e

  -- What stood at the path is of use to another, and still stands there.
  abbrev pub Spared : Host → Host → Type 0
  Spared h h' =
      ((h.entry ≡ other_file) → h'.entry ≡ other_file)
      × ((h.entry ≡ socket true) → calls.dial ≡ none → h'.entry ≡ socket true)

  pub data Started (has_executor : Bool) (h : Host) (out : Outcome) : Type 0 where
    started :
        out.0 ≡ ok tt
        → h.entry ≢ other_file
        → (h.entry ≡ socket true → calls.dial ≢ none)
        → out.1.entry ≡ socket true
        → out.1.private_dir ≡ true
        → out.1.private_socket ≡ true
        → out.1.listening ≡ true
        → (says out.1.status ≡ none) ⊎ (says out.1.status ≡ some true)
        → Closed encode health_path now calls path (close encode health_path now calls path out.1).1
        → Started has_executor h out
    prevented :
        (e : Text)
        → out.0 ≡ err e
        → Prevented has_executor h e
        → out.1.listening ≡ false
        → Spared h out.1
        → Started has_executor h out

  call_holds :
      (P : Outcome → Type 0) (c : Option Text) (next : Host → Outcome) (h : Host)
      → ((e : Text) → c ≡ some e → P (err e, h))
      → P (next h)
      → P (call c next h)
  call_holds P (some e) next h a b = a e refl
  call_holds P none next h a b = b

  -- Nothing of use to another stands at the path.
  abbrev Free : Host → Type 0
  Free h = (h.entry ≢ other_file) × (h.entry ≡ socket true → calls.dial ≢ none)

  Free-Spared : (h h' : Host) → Free h → Spared h h'
  Free-Spared h h' f = (λ e. absurd (f.0 e), λ e d. absurd (f.1 e d))

  module _ (has_executor : Bool) (h₀ : Host) where
    guarded-Started :
        (c : Option Text) (h : Host)
        → calls.chmod_socket ≡ c
        → Free h₀
        → h.entry ≡ socket true
        → h.listening ≡ true
        → h.private_dir ≡ true
        → h.closed ≡ false
        → Started has_executor h₀ (guarded encode health_path now calls path c h)
    unfolding report_ipc
    guarded-Started (some e) h failed f here open_ private live =
        let h₁ = shut encode health_path now calls path h in
        prevented e refl (call_failed (inr (inr (inr (inr (inr (inr failed)))))))
          (removed-listening encode health_path now calls path calls.remove h₁
            ∙ removed-listening encode health_path now calls path calls.unlink
                (record h { listening = false; entry = socket false }))
          (Free-Spared h₀ (removed encode health_path now calls path calls.remove h₁) f)
    guarded-Started none h fine f here open_ private live =
        let h₁ = record h { private_socket = true } in
        let (entry, dir, sock, listening, shut_yet) =
          reported_kept encode health_path now calls path true h₁.status h₁ in
        started refl f.0 f.1 (entry ∙ here) (dir ∙ private) sock (listening ∙ open_)
          (reported-says encode health_path now calls path true h₁.status h₁ refl)
          (close-Closed encode health_path now calls path
            (reported encode health_path now calls path true h₁.status h₁) (shut_yet ∙ live))

    -- What comes after `prepareSocketPath`.
    opened-Started :
        (h : Host)
        → Free h₀
        → h.listening ≡ false
        → h.private_dir ≡ true
        → h.closed ≡ false
        → Started has_executor h₀
            (call calls.resolve (call calls.listen (bound encode health_path now calls path)) h)
    opened-Started h f idle private live =
        call_holds (Started has_executor h₀) calls.resolve
          (call calls.listen (bound encode health_path now calls path)) h
          (λ e bad.
            prevented e refl (call_failed (inr (inr (inr (inr (inl bad)))))) idle
              (Free-Spared h₀ h f))
          (call_holds (Started has_executor h₀) calls.listen
            (bound encode health_path now calls path) h
            (λ e bad.
              prevented e refl (call_failed (inr (inr (inr (inr (inr (inl bad))))))) idle
                (Free-Spared h₀ h f))
            (guarded-Started calls.chmod_socket (record h { entry = socket true; listening = true })
              refl f refl refl private live))

    is_none-none : (e : Option Text) → is_none e ≡ true → e ≡ none
    is_none-none none h = refl
    is_none-none (some e) h = absurd (ground (arith, h))

    -- As it was, what stands at the path is spared.
    same-Spared : (h : Host) → h.entry ≡ h₀.entry → Spared h₀ h
    same-Spared h same = (λ e. same ∙ e, λ e d. same ∙ e)

    cleared-Started :
        (entry : Entry) (h : Host)
        → h₀.entry ≡ entry
        → h.entry ≡ h₀.entry
        → h.listening ≡ false
        → h.private_dir ≡ true
        → h.closed ≡ false
        → Started has_executor h₀ (
            cleared encode health_path now calls path entry
              (call calls.resolve (call calls.listen (bound encode health_path now calls path)))
              h)
    cleared-Started absent h stood same idle private live =
        opened-Started h (λ e. ground (arith, stood, e), λ e d. ground (arith, stood, e)) idle
          private live
    cleared-Started other_file h stood same idle private live =
        prevented _ refl (other_entry stood) idle (same-Spared h same)
    cleared-Started (socket taken) h stood same idle private live =
        if_holds (Started has_executor h₀) (taken && is_none calls.dial)
          (err (text "control socket already in use: " ++ path), h)
          (call calls.remove_stale
            (λ h'.
              call calls.resolve (call calls.listen (bound encode health_path now calls path))
                (record h' { entry = absent }))
            h)
          (λ taken_yet.
            prevented _ refl
              (in_use (stood ∙ ap socket (ground (arith, taken_yet)))
                (is_none-none calls.dial (ground (arith, taken_yet))))
              idle (same-Spared h same))
          (λ stale.
            call_holds (Started has_executor h₀) calls.remove_stale
              (λ h'.
                call calls.resolve (call calls.listen (bound encode health_path now calls path))
                  (record h' { entry = absent }))
              h
              (λ e bad.
                prevented e refl (call_failed (inr (inr (inr (inl bad))))) idle
                  (same-Spared h same))
              (opened-Started (record h { entry = absent })
                (λ e. ground (arith, stood, e), λ e d. ground (arith, stood, e, d, stale)) idle
                private live))

    prepare-Started :
        h₀.listening ≡ false
        → h₀.closed ≡ false
        → Started has_executor h₀ (
            prepare_socket_path encode health_path now calls path
              (call calls.resolve (call calls.listen (bound encode health_path now calls path)))
              h₀)
    prepare-Started idle live =
        call_holds (Started has_executor h₀) calls.mkdir _ h₀
          (λ e bad. prevented e refl (call_failed (inl bad)) idle (same-Spared h₀ refl))
          (call_holds (Started has_executor h₀) calls.chmod_dir _ h₀
            (λ e bad. prevented e refl (call_failed (inr (inl bad))) idle (same-Spared h₀ refl))
            (call_holds (Started has_executor h₀) calls.lstat _ (record h₀ { private_dir = true })
              (λ e bad.
                prevented e refl (call_failed (inr (inr (inl bad)))) idle
                  (same-Spared (record h₀ { private_dir = true }) refl))
              (cleared-Started h₀.entry (record h₀ { private_dir = true }) refl refl idle refl
                live)))

  -- A start of a new server succeeds, and then it listens on a socket that, like its directory, is for
  -- its user alone, the status says so, and Close ends it: it no longer listens, the status says so,
  -- nothing is left at the path where it can be removed, and a second Close does nothing. Or the start
  -- fails for a reason: there is no path or no executor, something that is no socket or a socket in
  -- use stands at the path, or a call fails. It then does not listen, and what is of use to another
  -- still stands at the path.
  pub start-Started :
      (has_executor : Bool) (h : Host)
      → h.listening ≡ false
      → h.closed ≡ false
      → Started has_executor h (start encode health_path now calls path has_executor h)
  unfolding start
  start-Started has_executor h idle live =
      if_holds (Started has_executor h) (trim_space path == []) _ _
        (λ blank.
          prevented _ refl (no_path (ground (arith, blank, ==_iff (trim_space path) []))) idle
            (same-Spared has_executor h h refl))
        (λ named.
          if_holds (Started has_executor h) (not has_executor) _ _
            (λ missing.
              prevented _ refl (no_executor (ground (arith, missing))) idle
                (same-Spared has_executor h h refl))
            (λ executor. prepare-Started has_executor h idle live))
