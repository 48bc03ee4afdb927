-- ===== src/Session/Message/Shape.antt =====
-- auth.go: what every event that `normalizeMessage` returns satisfies.
use wa_agent_pipeline.Base.{
  ℕ, Text, ◌≡◌, ◌≢◌, inl, inr, refl, Option, none, some, List, [], ◌∷◌, arith, Bool-cases, ==_iff,
  ◌==◌, text_eq,
}
use wa_agent_pipeline.Base.Int.{ℤ, pos, IsInt64, ◌≤ℤ◌}
use wa_agent_pipeline.Texts.{text, trim_space, to_lower}
use wa_agent_pipeline.Writer.{Event}
use wa_agent_pipeline.Session.Message.{
  first_text, Media, Body, Incoming, fallback_message_type, uint64_to_int64, set_media,
  poll_creation, case_of, with_extended, captioned, poll_event, bare_event, plain_case,
  normalize_media, normalize_body, normalize_message,
}

-- The type is named, and the size is a natural number of the type int64.
pub record IsNormal (ev : Event) : Type 0 where
  pub named : ev.message_type ≢ []
  pub size_range : IsInt64 ev.media_size
  pub size_natural : pos 0 ≤ℤ ev.media_size
  pub unread : ev.media_bytes ≡ []
  pub fresh : ev.media_hydration_status ≡ []

fallback_named : (info_type : Text) → fallback_message_type info_type ≢ []
unfolding fallback_message_type
fallback_named info_type = ground (arith, ==_iff (trim_space (to_lower info_type)) [])

-- What `normalizeMessage` begins with, and what each of its cases keeps.
record IsBare (ev : Event) : Type 0 where
  pub size_zero : ev.media_size ≡ pos 0
  pub unread : ev.media_bytes ≡ []
  pub fresh : ev.media_hydration_status ≡ []

uint64_to_int64-range : (v : ℕ) → IsInt64 (uint64_to_int64 v) × (pos 0 ≤ℤ uint64_to_int64 v)
unfolding uint64_to_int64
uint64_to_int64-range v = ground arith

abbrev IsNamed : Text → Type 0
IsNamed kind = kind ≢ []

named-IsNormal : (ev : Event) → IsNamed ev.message_type → IsBare ev → IsNormal ev
named-IsNormal ev n b = record {
  named = n;
  size_range = rw b.size_zero (ground arith);
  size_natural = rw b.size_zero (ground arith);
  unread = b.unread;
  fresh = b.fresh;
}

case_of-holds :
    {A B : Type 0} (P : B → Type 0) (o : Option A) (f : A → B) (other : B)
    → ((a : A) → P (f a))
    → P other
    → P (case_of o f other)
case_of-holds P none f other h k = k
case_of-holds P (some a) f other h k = h a

-- A text, with the type that a text of its own gets, or none yet.
with_extended-IsBare :
    (extended : Option Text) (ev : Event) → IsBare ev → IsBare (with_extended extended ev)
with_extended-IsBare none ev b = b
with_extended-IsBare (some extended) ev b = record {
  size_zero = b.size_zero;
  unread = b.unread;
  fresh = b.fresh;
}

plain_case-IsNormal :
    (D : Type 0) (info_type : Text) (ev : Event)
    → IsBare ev
    → IsNormal (plain_case {D = D} info_type ev).0
plain_case-IsNormal D info_type ev b = elim (Bool-cases (ev.message_type == [])) [
  | inl unnamed ↦ rw unnamed (
      named-IsNormal (record ev { message_type = fallback_message_type info_type })
        (fallback_named info_type)
        (record { size_zero = b.size_zero; unread = b.unread; fresh = b.fresh }))
  | inr named ↦ rw named (named-IsNormal ev (ground (arith, named, ==_iff ev.message_type [])) b)
]

with_body-IsBare : (ev : Event) (body : Text) → IsBare ev → IsBare (record ev { body = body })
with_body-IsBare ev body b = record { size_zero = b.size_zero; unread = b.unread; fresh = b.fresh }

module _ (file_ext : Text → Text) (mime_extensions : Text → List Text) {D : Type 0} where
  set_media-IsNormal :
      (kind title : Text) (media : Media D) (ev : Event)
      → IsNamed kind
      → IsBare ev
      → IsNormal (set_media file_ext mime_extensions kind title media ev)
  unfolding set_media
  set_media-IsNormal kind title media ev n b =
      let (range, natural) = uint64_to_int64-range media.file_length in
      record {
        named = n;
        size_range = range;
        size_natural = natural;
        unread = b.unread;
        fresh = b.fresh;
      }

  abbrev HasNormal : Event × Option D → Type 0
  HasNormal out = IsNormal out.0

  captioned-HasNormal :
      (kind : Text) (ev : Event) (media : Media D)
      → IsNamed kind
      → IsBare ev
      → HasNormal (captioned file_ext mime_extensions kind ev media)
  captioned-HasNormal kind ev media n b =
      set_media-IsNormal kind [] media
        (record ev { body = first_text (media.caption ∷ ev.body ∷ []) }) n
        (with_body-IsBare ev (first_text (media.caption ∷ ev.body ∷ [])) b)

  normalize_media-IsNormal :
      (info_type : Text) (body : Body D) (ev : Event)
      → IsBare ev
      → HasNormal (normalize_media file_ext mime_extensions info_type body ev)
  unfolding normalize_media
  normalize_media-IsNormal info_type body ev b =
      case_of-holds HasNormal body.image _ _
        (λ m. captioned-HasNormal (text "image") ev m (ground arith) b)
        (case_of-holds HasNormal body.document _ _
          (λ m.
            set_media-IsNormal (text "document") (first_text (m.file_name ∷ m.title ∷ [])) m
              (record ev { body = first_text (m.caption ∷ ev.body ∷ []) }) (ground arith)
              (with_body-IsBare ev (first_text (m.caption ∷ ev.body ∷ [])) b))
          (case_of-holds HasNormal body.video _ _
            (λ m. captioned-HasNormal (text "video") ev m (ground arith) b)
            (case_of-holds HasNormal body.audio _ _
              (λ m. set_media-IsNormal (text "audio") [] m ev (ground arith) b)
              (case_of-holds HasNormal body.ptv _ _
                (λ m. captioned-HasNormal (text "video") ev m (ground arith) b)
                (case_of-holds HasNormal body.sticker _ _
                  (λ m. set_media-IsNormal (text "sticker") [] m ev (ground arith) b)
                  (plain_case-IsNormal D info_type ev b))))))

  normalize_body-IsNormal :
      (info_type : Text) (body : Body D) (ev : Event)
      → IsBare ev
      → HasNormal (normalize_body file_ext mime_extensions info_type body ev)
  unfolding normalize_body
  normalize_body-IsNormal info_type body ev b =
      let plain = record ev { body = first_text (body.conversation ∷ []) } in
      let texted = with_extended body.extended_text plain in
      let b' =
        with_extended-IsBare body.extended_text plain
          (with_body-IsBare ev (first_text (body.conversation ∷ [])) b) in
      case_of-holds HasNormal (poll_creation body.polls) (poll_event texted) _
        (λ poll.
          named-IsNormal (poll_event {D = D} texted poll).0 (ground arith)
            (record { size_zero = b'.size_zero; unread = b'.unread; fresh = b'.fresh }))
        (elim (Bool-cases body.poll_update) [
          | inl update ↦ rw update (
              named-IsNormal (record texted { message_type = text "poll_vote" }) (ground arith)
                (record { size_zero = b'.size_zero; unread = b'.unread; fresh = b'.fresh }))
          | inr other ↦ rw other (normalize_media-IsNormal info_type body texted b')
        ])

  -- Whatever the message, the event that `normalizeMessage` returns has a type that is not empty, a
  -- media size from 0 to 2^63 - 1, no media bytes and no hydration status.
  pub normalize_message-IsNormal :
      (now : ℤ) (evt : Incoming D) → IsNormal (normalize_message file_ext mime_extensions now evt).0
  unfolding normalize_message
  normalize_message-IsNormal now evt =
      let ev = bare_event now evt in
      let b : IsBare ev = record { size_zero = refl; unread = refl; fresh = refl } in
      case_of-holds HasNormal evt.body _ _ (λ body. normalize_body-IsNormal evt.info_type body ev b)
        (named-IsNormal (record ev { message_type = fallback_message_type evt.info_type })
          (fallback_named evt.info_type) (record { size_zero = refl; unread = refl; fresh = refl }))
