-- ===== src/Unseen/Runs.antt =====
-- unseen.go: the latest successful run of the ingest, `latestOKIngestFinishedAt`.
use wa_agent_pipeline.Base.{
  Text, ◌≡◌, ◌↔◌, inl, inr, refl, sym, false, In, ==_iff, if◌then◌else◌, ◌∙◌, Option, none, some,
  List, [], ◌∷◌, arith, Bool-cases, Option-cases, ok, ◌==◌, text_eq,
}
use wa_agent_pipeline.Base.Int.{ℤ, ◌≤ℤ◌, ltb_ℤ, int_eq}
use wa_agent_pipeline.Texts.{text}
use wa_agent_pipeline.Writer.{RunRow}
use wa_agent_pipeline.Unseen.{
  Database, latest_finished, latest_ok_ingest_finished_at, counts, larger, run,
}

-- The run succeeded, was not a dry one, and ended at `t`.
pub record EndedWell (run : RunRow) (t : ℤ) : Type 0 where
  pub succeeded : run.status ≡ text "ok"
  pub real : run.dry_run ≡ false
  pub ended : run.finished_at ≡ some t

-- `t` is the end of a run that succeeded, and no such run ended later.
pub record IsLatest (runs : List (Text × RunRow)) (t : ℤ) : Type 0 where
  pub id : Text
  pub run : RunRow
  pub stored : In (id, run) runs
  pub ended_well : EndedWell run t
  pub latest : (other : Text × RunRow) (u : ℤ) → In other runs → EndedWell other.1 u → u ≤ℤ t

pub latest_ok-known :
    (db : Database) (latest : Option ℤ)
    → latest_ok_ingest_finished_at db ≡ ok latest
    → latest_finished db.tables.runs ≡ latest
unfolding latest_ok_ingest_finished_at
latest_ok-known db latest h = elim (Option-cases db.ingest_error) [
  | inl fine ↦ ground (arith, h, fine)
  | inr (e, bad) ↦ absurd (ground (arith, h, bad))
]

-- What a run adds to the ends.
abbrev end_of : RunRow → Option ℤ
end_of run = if counts run then run.finished_at else none

end_of-EndedWell : (run : RunRow) (t : ℤ) → (end_of run ≡ some t) ↔ EndedWell run t
end_of-EndedWell run t = elim (Bool-cases (run.status == text "ok")) [
  | inl good ↦ (
    λ h. record {
      succeeded = (==_iff run.status (text "ok")).0 good;
      real = ground (arith, h, good);
      ended = ground (arith, h, good);
    },
    λ w. ground (arith, good, w.real, w.ended),
  )
  | inr bad ↦ (
    λ h. absurd (ground (arith, h, bad)),
    λ w. absurd (ground (arith, bad, (==_iff run.status (text "ok")).1 w.succeeded)),
  )
]

-- The latest end of the runs, or that there is none.
pub Ends : List (Text × RunRow) → Option ℤ → Type 0
Ends runs none = (other : Text × RunRow) (u : ℤ) → In other runs → ¬ EndedWell other.1 u
Ends runs (some t) = IsLatest runs t

later_IsLatest :
    (id : Text) (run : RunRow) (runs : List (Text × RunRow)) (u : ℤ)
    → IsLatest runs u
    → ((s : ℤ) → EndedWell run s → s ≤ℤ u)
    → IsLatest ((id, run) ∷ runs) u
later_IsLatest id run runs u v below = record {
  id = v.id;
  run = v.run;
  stored = inr v.stored;
  ended_well = v.ended_well;
  latest = λ other s i w. elim i [
    | inl same ↦ below s (rw same at w)
    | inr later ↦ v.latest other s later w
  ];
}

first_IsLatest :
    (id : Text) (run : RunRow) (runs : List (Text × RunRow)) (t : ℤ)
    → end_of run ≡ some t
    → ((other : Text × RunRow) (s : ℤ) → In other runs → EndedWell other.1 s → s ≤ℤ t)
    → IsLatest ((id, run) ∷ runs) t
first_IsLatest id run runs t e below = record {
  id = id;
  run = run;
  stored = inl refl;
  ended_well = (end_of-EndedWell run t).0 e;
  latest = λ other s i w. elim i [
    | inl same ↦
        let ended : some t ≡ some s = sym e ∙ (end_of-EndedWell run s).1 (rw same at w) in
        let same_end : s ≡ t = ground (arith, ended) in rw same_end (omega arith)
    | inr later ↦ below other s later w
  ];
}

later_end :
    (id : Text) (run : RunRow) (runs : List (Text × RunRow)) (first rest : Option ℤ)
    → end_of run ≡ first
    → Ends runs rest
    → Ends ((id, run) ∷ runs) (larger first rest)
unfolding Ends
later_end id run runs none none e v = λ other u i w. elim i [
  | inl same ↦ absurd (ground (arith, e, (end_of-EndedWell run u).1 (rw same at w)))
  | inr later ↦ v other u later w
]
later_end id run runs none (some u) e v =
    later_IsLatest id run runs u v λ s w. absurd (ground (arith, e, (end_of-EndedWell run s).1 w))
later_end id run runs (some t) none e v =
    first_IsLatest id run runs t e λ other s i w. absurd (v other s i w)
later_end id run runs (some t) (some u) e v = elim (Bool-cases (ltb_ℤ t u)) [
  | inl less ↦ rw less (
      later_IsLatest id run runs u v λ s w.
        let same : some t ≡ some s = sym e ∙ (end_of-EndedWell run s).1 w in
        ground (arith, less, same))
  | inr not_less ↦ rw not_less (
      first_IsLatest id run runs t e
        λ other s i w. let below = v.latest other s i w in ground (arith, not_less, below))
]

pub latest_finished-Ends : (runs : List (Text × RunRow)) → Ends runs (latest_finished runs)
unfolding Ends latest_finished
latest_finished-Ends [] = λ other u i w. absurd i
latest_finished-Ends ((id, run) ∷ runs) =
    later_end id run runs (end_of run) (latest_finished runs) refl (latest_finished-Ends runs)

pub found_IsLatest :
    (runs : List (Text × RunRow)) (o : Option ℤ) (t : ℤ)
    → o ≡ some t
    → Ends runs o
    → IsLatest runs t
unfolding Ends
found_IsLatest runs none t e v = absurd (ground (arith, e))
found_IsLatest runs (some u) t e v = let same : u ≡ t = ground (arith, e) in rw same at v
