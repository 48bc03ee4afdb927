-- ===== src/Health/Window.antt =====
-- health.go: what `Write` leaves in health.json and in the status.
use wa_agent_pipeline.Base.{
  ℕ, Text, ◌≡◌, ◌↔◌, inl, inr, refl, sym, ap, ◌∙◌, some, List, [], ◌∷◌, ◌++◌, In, In-select, arith,
  Result-cases, ok, length, lookup, text_eq,
}
use wa_agent_pipeline.Base.Int.{ℤ, ltb_ℤ, ◌<ℤ◌, sub64}
use wa_agent_pipeline.Texts.{text}
use wa_agent_pipeline.Files.{Files, FileAction, ◌>>◌, step_over, open_truncate, write_all, rename}
use wa_agent_pipeline.Files.Atomic.{
  bind_ok, bind_err, Same, Replaced, rename-Replaced, after_call, step_over-content, write_all-Same,
  write_all-full, open_truncate-Same, step_over-Same,
}
use wa_agent_pipeline.Health.{Status, Report, five_minutes, prune, report, write_file, write}

then_ok :
    (m k : FileAction Unit) (fs : Files)
    → ((m >> k) fs).0 ≡ ok tt
    → ((m fs).0 ≡ ok tt) × ((m >> k) fs ≡ k (m fs).1)
then_ok m k fs h = elim (Result-cases (m fs).0) [
  | inl (e, stop) ↦ absurd (ground (arith, h, stop))
  | inr (a, go) ↦ (go, bind_ok m k fs go)
]

module _ (tmp path : Text) (bytes : List ℕ) where
  then-Same :
      (m k : FileAction Unit) (fs : Files)
      → Same tmp fs (m fs).1
      → ((fs' : Files) → Same tmp fs' (k fs').1)
      → Same tmp fs ((m >> k) fs).1
  then-Same m k fs same same' = elim (Result-cases (m fs).0) [
    | inl (e, stop) ↦ rw (bind_err m k fs stop) same
    | inr (a, go) ↦ rw (bind_ok m k fs go) (λ j n. same' (m fs).1 j n ∙ same j n)
  ]

  write_file-Same : (fs : Files) → Same tmp fs (write_file tmp bytes fs).1
  unfolding write_file
  write_file-Same fs =
      then-Same (open_truncate tmp >> write_all tmp bytes) step_over fs
        (then-Same (open_truncate tmp) (write_all tmp bytes) fs
          (open_truncate-Same tmp path bytes fs) (write_all-Same tmp path bytes))
        (step_over-Same tmp path bytes)

  write_file-full :
      (fs : Files)
      → (write_file tmp bytes fs).0 ≡ ok tt
      → lookup tmp (write_file tmp bytes fs).1.content ≡ some bytes
  unfolding write_file
  write_file-full fs h =
      let (written, last) = then_ok (open_truncate tmp >> write_all tmp bytes) step_over fs h in
      let (opened, middle) = then_ok (open_truncate tmp) (write_all tmp bytes) fs written in
      let full : lookup tmp ((open_truncate tmp >> write_all tmp bytes) fs).1.content ≡ some bytes =
        rw middle (
          write_all-full tmp path bytes (open_truncate tmp fs).1
            (ap (λ r. r.0) (sym middle) ∙ written)) in
      ap (λ r. lookup tmp r.1.content) last
      ∙ ap (lookup tmp)
          (step_over-content tmp path bytes ((open_truncate tmp >> write_all tmp bytes) fs).1)
      ∙ full

  write_steps-Replaced :
      (fs : Files)
      → Replaced tmp path bytes fs ((step_over >> write_file tmp bytes >> rename tmp path) fs)
  write_steps-Replaced fs =
      after_call tmp path bytes (step_over >> write_file tmp bytes) (rename tmp path) fs
        (then-Same step_over (write_file tmp bytes) fs (step_over-Same tmp path bytes fs)
          write_file-Same)
        (λ ran.
          let (made, rest) = then_ok step_over (write_file tmp bytes) fs ran in
          rename-Replaced tmp path bytes _ (
            ap (λ r. lookup tmp r.1.content) rest
            ∙ write_file-full (step_over fs).1 (ap (λ r. r.0) (sym rest) ∙ ran)))

-- The status keeps the failures after `cutoff`, and nothing else of it changes.
pub record Pruned (cutoff : ℤ) (s s' : Status) : Type 0 where
  pub failures : (t : ℤ) → In t s'.media_failures ↔ (In t s.media_failures × (cutoff <ℤ t))
  pub connected : s'.connected ≡ s.connected
  pub logged_in : s'.logged_in ≡ s.logged_in
  pub last_message_at : s'.last_message_at ≡ s.last_message_at
  pub queue_depth : s'.queue_depth ≡ s.queue_depth
  pub ipc_listening : s'.ipc_listening ≡ s.ipc_listening

prune-Pruned : (cutoff : ℤ) (s : Status) → Pruned cutoff s (prune cutoff s)
unfolding prune
prune-Pruned cutoff s = record {
  failures = λ t.
      let (to, from) = In-select (λ u. ltb_ℤ cutoff u) t s.media_failures in
      (
        λ i. let (j, late) = to i in (j, ground (arith, late)),
        λ (j, late). from (j, ground (arith, late)),
      );
  connected = refl;
  logged_in = refl;
  last_message_at = refl;
  queue_depth = refl;
  ipc_listening = refl;
}

-- Whatever the file system does, Write leaves in the status the media failures of the last five
-- minutes, and nothing else of it changes; and it succeeds, and health.json holds the whole report
-- of that status, with as many failures as it has, or it fails, and every file but the temporary one
-- is as it was.
pub write-Pruned :
    (encode : Report → List ℕ) (path : Text) (now : ℤ) (s : Status) (fs : Files)
    → let out = write encode path now (s, fs) in
      Pruned (sub64 now five_minutes) s out.1.0
      × Replaced
          (path ++ text ".tmp")
          path
          (encode (report now out.1.0) ++ b'\n' ∷ [])
          fs
          (out.0, out.1.1)
      × ((report now out.1.0).media_failures_5m ≡ length out.1.0.media_failures)
unfolding write report
write-Pruned encode path now s fs = (
  prune-Pruned (sub64 now five_minutes) s,
  write_steps-Replaced (path ++ text ".tmp") path _ fs,
  refl,
)
