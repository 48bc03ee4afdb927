-- ===== src/Backfill/Anchors/Newest.antt =====
-- backfill.go: the anchor that is found is that of the newest message.
use mathlib.Core.Path.{subst}
use wa_agent_pipeline.Base.{
  ℕ, Text, ◌≡◌, ◌≢◌, ◌⊎◌, ◌↔◌, Option-cases, Result-cases, inl, inr, refl, sym, ap, Bool, true,
  false, Option, none, some, List, [], ◌∷◌, In, Result, ok, err, arith, Bool-cases, select,
  In-select, text_eq, ◌&&◌, ◌||◌, ◌==◌, ==_iff,
}
use wa_agent_pipeline.Base.Int.{ℤ, ◌≤ℤ◌, ◌<ℤ◌, int_eq, ltb_ℤ}
use wa_agent_pipeline.Texts.{trim_space}
use wa_agent_pipeline.Writer.{MessageRow}
use wa_agent_pipeline.Backfill.{Anchor}
use wa_agent_pipeline.Backfill.Requests.{Jid, message_info}
use wa_agent_pipeline.Backfill.Anchors.{
  Messages, AnchorError, anchor_not_found, is_newer, newer_of, newest, is_candidate, row_anchor,
  checked, first_row, latest_anchor_from_db, anchor_from_row, or_any, latest_anchor, other,
}

-- A row of the list that is as new as any of it.
pub record IsNewest (rows : List MessageRow) (row : MessageRow) : Type 0 where
  pub stored : In row rows
  pub latest : (other : MessageRow) → In other rows → other.ts ≤ℤ row.ts

-- The order of the query is that of the times, first of all.
abbrev after : ℤ → ℤ → ℤ → ℤ → ℤ → ℤ → Bool
after t u i j k l = ltb_ℤ u t || ((t == u) && (ltb_ℤ j i || ((i == j) && ltb_ℤ l k)))

ordered : (t u i j k l : ℤ) → after t u i j k l ≡ true → u ≤ℤ t
ordered t u i j k l h = elim (Bool-cases (ltb_ℤ u t)) [
  | inl less ↦ ground (arith, less)
  | inr not_less ↦ elim (Bool-cases (t == u)) [
    | inl same ↦ rw ((==_iff t u).0 same) (omega arith)
    | inr different ↦ absurd (ground (arith, rw (not_less, different) at h))
  ]
]

ordered_back : (t u i j k l : ℤ) → after t u i j k l ≡ false → t ≤ℤ u
ordered_back t u i j k l h = elim (Bool-cases (ltb_ℤ u t)) [
  | inl less ↦ absurd (ground (arith, rw less at h))
  | inr not_less ↦ ground (arith, not_less)
]

is_newer-ts : (a b : MessageRow) → is_newer a b ≡ true → b.ts ≤ℤ a.ts
is_newer-ts a b h = ordered a.ts b.ts a.ingested_at b.ingested_at a.source_pk b.source_pk h

older-ts : (a b : MessageRow) → is_newer a b ≡ false → a.ts ≤ℤ b.ts
older-ts a b h = ordered_back a.ts b.ts a.ingested_at b.ingested_at a.source_pk b.source_pk h

-- The newer of a row and the newest of the others.
newer_of-IsNewest :
    (first best : MessageRow) (rows : List MessageRow)
    → IsNewest rows best
    → IsNewest (first ∷ rows) (newer_of first (some best))
newer_of-IsNewest first best rows v = elim (Bool-cases (is_newer best first)) [
  | inl newer ↦ rw newer (record {
    stored = inr v.stored;
    latest = λ other i. elim i [
      | inl e ↦ rw e (is_newer-ts best first newer)
      | inr j ↦ v.latest other j
    ];
  })
  | inr older ↦ rw older (record {
    stored = inl refl;
    latest = λ other i. elim i [
      | inl e ↦ rw e (omega arith)
      | inr j ↦ omega (arith, v.latest other j, older-ts best first older)
    ];
  })
]

pub newest-IsNewest :
    (first : MessageRow) (rows : List MessageRow)
    → (best : MessageRow) × (newest (first ∷ rows) ≡ some best) × IsNewest (first ∷ rows) best
unfolding newest
newest-IsNewest first [] = (
  first,
  refl,
  record {
    stored = inl refl;
    latest = λ other i. elim i [ inl e ↦ rw e (omega arith) | inr j ↦ absurd j ];
  },
)
newest-IsNewest first (second ∷ rows) =
    let (best, e, v) = newest-IsNewest second rows in
    (
      newer_of first (some best),
      ap (λ o. some (newer_of first o)) e,
      newer_of-IsNewest first best (second ∷ rows) v,
    )

-- The row is of the chat, or any chat is asked for by an empty name, and it is before the time that
-- is given, if any.
abbrev pub Fits : Text → Option ℤ → MessageRow → Type 0
Fits chat_jid before row =
    ((trim_space chat_jid ≡ []) ⊎ (row.chat_jid ≡ chat_jid))
    × ((t : ℤ) → before ≡ some t → row.ts <ℤ t)

in_chat_iff :
    (chat_jid : Text) (row : MessageRow)
    → (((trim_space chat_jid == []) || (row.chat_jid == chat_jid)) ≡ true)
      ↔ ((trim_space chat_jid ≡ []) ⊎ (row.chat_jid ≡ chat_jid))
in_chat_iff chat_jid row = (
  λ h. elim (Bool-cases (trim_space chat_jid == [])) [
    | inl any ↦ inl ((==_iff (trim_space chat_jid) []).0 any)
    | inr one ↦ inr ((==_iff row.chat_jid chat_jid).0 (rw one at h))
  ],
  λ h. elim h [
    | inl any ↦ ground (arith, (==_iff (trim_space chat_jid) []).1 any)
    | inr same ↦ ground (arith, (==_iff row.chat_jid chat_jid).1 same)
  ],
)

Fits-iff :
    (chat_jid : Text) (before : Option ℤ) (row : MessageRow)
    → (is_candidate chat_jid before row ≡ true) ↔ Fits chat_jid before row
unfolding is_candidate
Fits-iff chat_jid none row =
    let (to, from) = in_chat_iff chat_jid row in
    (
      λ h. (to (ground (arith, h)), λ t e. absurd (ground (arith, e))),
      λ (chat, _). ground (arith, from chat),
    )
Fits-iff chat_jid (some t) row =
    let (to, from) = in_chat_iff chat_jid row in
    (
      λ h. (to (ground (arith, h)), λ u e. ground (arith, h, e)),
      λ (chat, early). ground (arith, from chat, early t refl),
    )

-- The anchor names the message of the row.
pub record IsAnchorOf (row : MessageRow) (a : Anchor) : Type 0 where
  pub chat : a.chat_jid ≡ row.chat_jid
  pub message : a.msg_id ≡ row.msg_id
  pub sent : a.timestamp ≡ row.ts
  pub own : a.from_me ≡ row.from_me
  pub sender :
      (row.sender_jid ≡ some a.sender_jid) ⊎ ((row.sender_jid ≡ none) × (a.sender_jid ≡ []))

row_anchor-IsAnchorOf : (row : MessageRow) → IsAnchorOf row (row_anchor row)
row_anchor-IsAnchorOf row = record {
  chat = refl;
  message = refl;
  sent = refl;
  own = refl;
  sender = elim (Option-cases row.sender_jid) [
    | inl e ↦ inr (e, ground (arith, e))
    | inr (sender, e) ↦ inl (ground (arith, e))
  ];
}

module _ (parse_jid : Text → Result Text Jid) where
  -- An anchor that names the message of the row, or the error of the JIDs that the anchor has.
  pub data Returned (row : MessageRow) (r : Result AnchorError Anchor) : Type 0 where
    named : (a : Anchor) → r ≡ ok a → IsAnchorOf row a → Returned row r
    malformed :
        (a : Anchor) (e : Text)
        → r ≡ err (other e)
        → IsAnchorOf row a
        → message_info parse_jid a ≡ err e
        → Returned row r

  pub anchor_from_row-Returned : (row : MessageRow) → Returned row (anchor_from_row parse_jid row)
  anchor_from_row-Returned row = elim (Result-cases (message_info parse_jid (row_anchor row))) [
    | inl (e, bad) ↦
        malformed (row_anchor row) e (ground (arith, bad)) (row_anchor-IsAnchorOf row) bad
    | inr (info, good) ↦ named (row_anchor row) (ground (arith, good)) (row_anchor-IsAnchorOf row)
  ]

  Returned-found :
      (row : MessageRow) (r : Result AnchorError Anchor) → Returned row r → r ≢ err anchor_not_found
  Returned-found row r (named a e _) h = ground (arith, e, h)
  Returned-found row r (malformed a f e _ _) h = ground (arith, e, h)

  -- No message is a candidate and none is found; or the newest of the candidates is, and what is
  -- returned is its anchor, or the error of the JIDs that the anchor has.
  abbrev pub NoCandidate : Messages → Text → Option ℤ → Type 0
  NoCandidate db chat_jid before = (row : MessageRow) → In row db.rows → ¬ Fits chat_jid before row

  pub record FindsNewest (db : Messages) (chat_jid : Text) (before : Option ℤ)
      (r : Result AnchorError Anchor) : Type 0 where
    pub row : MessageRow
    pub stored : In row db.rows
    pub candidate : Fits chat_jid before row
    pub latest :
        (other : MessageRow) → In other db.rows → Fits chat_jid before other → other.ts ≤ℤ row.ts
    pub returned : Returned row r

  abbrev pub Finds : Messages → Text → Option ℤ → Result AnchorError Anchor → Type 0
  Finds db chat_jid before r =
      (NoCandidate db chat_jid before × (r ≡ err anchor_not_found))
      ⊎ FindsNewest db chat_jid before r

  of_candidates :
      (db : Messages) (chat_jid : Text) (before : Option ℤ) (rows : List MessageRow)
      → select (is_candidate chat_jid before) db.rows ≡ rows
      → Finds db chat_jid before (first_row parse_jid (newest rows))
  unfolding newest
  of_candidates db chat_jid before [] e = inl (
    λ row i fits. absurd (
        rw e at (In-select (is_candidate chat_jid before) row db.rows).1
          (i, (Fits-iff chat_jid before row).1 fits)),
    refl,
  )
  of_candidates db chat_jid before (first ∷ rows) e =
      let (best, found, v) = newest-IsNewest first rows in
      let (i, fits) = (In-select (is_candidate chat_jid before) best db.rows).0 (rw e v.stored) in
      inr (record {
        row = best;
        stored = i;
        candidate = (Fits-iff chat_jid before best).0 fits;
        latest = λ other j fits'. v.latest other (
            rw e at (In-select (is_candidate chat_jid before) other db.rows).1
              (j, (Fits-iff chat_jid before other).1 fits'));
        returned =
            subst (λ o. Returned best (first_row parse_jid o)) (sym found)
              (anchor_from_row-Returned best);
      })

  pub latest_anchor_from_db-Finds :
      (n : ℕ) (db : Messages) (chat_jid : Text) (before : Option ℤ)
      → db.query_error n ≡ none
      → Finds db chat_jid before (latest_anchor_from_db parse_jid n db chat_jid before)
  unfolding latest_anchor_from_db
  latest_anchor_from_db-Finds n db chat_jid before quiet =
      rw quiet (of_candidates db chat_jid before _ refl)

  -- What is returned with the fallback or without it.
  abbrev pub FindsOr : Bool → Messages → Text → Option ℤ → Result AnchorError Anchor → Type 0
  FindsOr fallback_any db chat_jid before r =
      (((fallback_any ≡ false) ⊎ (r ≢ err anchor_not_found)) × Finds db chat_jid before r)
      ⊎ ((fallback_any ≡ true) × NoCandidate db chat_jid before × Finds db [] before r)

  or_any-FindsOr :
      (fallback_any : Bool) (db : Messages) (chat_jid : Text) (before : Option ℤ)
      (in_chat any : Result AnchorError Anchor)
      → Finds db chat_jid before in_chat
      → Finds db [] before any
      → FindsOr fallback_any db chat_jid before (or_any parse_jid fallback_any in_chat any)
  or_any-FindsOr fallback_any db chat_jid before (ok a) any v w =
      inl (inr (λ e. ground (arith, e)), v)
  or_any-FindsOr fallback_any db chat_jid before (err (other error)) any v w =
      inl (inr (λ e. ground (arith, e)), v)
  or_any-FindsOr false db chat_jid before (err anchor_not_found) any v w = inl (inl refl, v)
  or_any-FindsOr true db chat_jid before (err anchor_not_found) any (inl (absent, _)) w =
      inr (refl, absent, w)
  or_any-FindsOr true db chat_jid before (err anchor_not_found) any (inr found) w =
      absurd (Returned-found found.row (err anchor_not_found) found.returned refl)

  checked-FindsOr :
      (fallback_any : Bool) (db : Messages) (chat_jid : Text) (before : Option ℤ) (o : Option Text)
      (r : Result AnchorError Anchor)
      → o ≡ none
      → FindsOr fallback_any db chat_jid before r
      → FindsOr fallback_any db chat_jid before (checked o r)
  checked-FindsOr fallback_any db chat_jid before none r e v = v
  checked-FindsOr fallback_any db chat_jid before (some error) r e v = absurd (ground (arith, e))

  -- Where the database opens and answers, LatestAnchor returns the anchor of the newest message of
  -- the chat, before the time that is given, if any, or the error of the JIDs in it; where there is
  -- no such message it returns that of the newest message of any chat, if that is asked for; and
  -- where there is none either, or it is not asked for, ErrAnchorNotFound.
  pub latest_anchor-FindsOr :
      (db : Messages) (chat_jid : Text) (before : Option ℤ) (fallback_any : Bool)
      → db.open_error ≡ none
      → ((n : ℕ) → db.query_error n ≡ none)
      → FindsOr fallback_any db chat_jid before
          (latest_anchor parse_jid db chat_jid before fallback_any)
  unfolding latest_anchor
  latest_anchor-FindsOr db chat_jid before fallback_any opens quiet =
      checked-FindsOr fallback_any db chat_jid before db.open_error _ opens (
        or_any-FindsOr fallback_any db chat_jid before _ _
          (latest_anchor_from_db-Finds 0 db chat_jid before (quiet 0))
          (latest_anchor_from_db-Finds 1 db [] before (quiet 1)))
