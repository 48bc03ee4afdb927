-- ===== src/Session/Message.antt =====
-- auth.go: `normalizeMessage`, from a message of whatsmeow to the event that is stored. A message is
-- given by what its getters return; `D` is what a download is asked for.
pub mod Shape
use wa_agent_pipeline.Base.{
  ℕ, ◌-◌, ◌^◌, Text, Bool, true, false, not, ◌&&◌, Option, none, some, List, [], ◌∷◌, ◌++◌, ltb,
  leb, ◌==◌, text_eq, if◌then◌else◌,
}
use wa_agent_pipeline.Base.Int.{ℤ, pos, int_eq}
use wa_agent_pipeline.Texts.{text, trim_space, to_lower, split, join, byte_length}
use wa_agent_pipeline.Writer.{Event}

-- An image, document, video, audio message or sticker; a kind without the field returns "".
pub record Media (D : Type 0) : Type 0 where
  pub caption : Text
  pub mimetype : Text
  pub file_name : Text
  pub title : Text
  pub url : Text
  pub file_length : ℕ
  pub source : D

pub record Poll : Type 0 where
  pub name : Text
  pub options : List Text

-- The polls of a message: the five plain versions, and the message inside version 4, if any.
pub data Polls : Type 0 where
  plain : List (Option Poll) → Polls
  nested : List (Option Poll) → Polls → Polls

pub record Body (D : Type 0) : Type 0 where
  pub conversation : Text
  pub extended_text : Option Text
  pub polls : Polls
  pub poll_update : Bool
  pub image : Option (Media D)
  pub document : Option (Media D)
  pub video : Option (Media D)
  pub audio : Option (Media D)
  pub ptv : Option (Media D)
  pub sticker : Option (Media D)

-- `events.Message`; `timestamp` is `Info.Timestamp.Unix()`.
pub record Incoming (D : Type 0) : Type 0 where
  pub chat : Text
  pub id : Text
  pub sender : Text
  pub push_name : Text
  pub timestamp : ℤ
  pub from_me : Bool
  pub info_type : Text
  pub body : Option (Body D)

-- `firstText`
unfoldable pub first_text : List Text → Text
first_text [] = []
first_text (value ∷ values) =
    let rest = first_text values in
    let trimmed = trim_space value in if trimmed == [] then rest else trimmed

unfoldable pub fallback_message_type : Text → Text
fallback_message_type info_type =
    let kind = trim_space (to_lower info_type) in if kind == [] then text "unknown" else kind

abbrev pub max_int64 : ℕ
max_int64 = 2 ^ 63 - 1

unfoldable pub uint64_to_int64 : ℕ → ℤ
uint64_to_int64 v = if ltb max_int64 v then pos max_int64 else pos v

-- The first poll of the loop of `pollCreation`.
unfoldable pub first_poll : List (Option Poll) → Option Poll
first_poll [] = none
first_poll (none ∷ polls) = first_poll polls
first_poll (some poll ∷ polls) = some poll

unfoldable pub poll_creation : Polls → Option Poll
unfolding first_poll
poll_creation (plain polls) = first_poll polls
poll_creation (nested polls inner) =
    let rest = poll_creation inner in
    elim (first_poll polls) [ none ↦ rest | some poll ↦ some poll ]

unfoldable pub option_lines : List Text → List Text
option_lines [] = []
option_lines (option ∷ options) =
    let rest = option_lines options in
    let name = trim_space option in if name == [] then rest else (text "- " ++ name) ∷ rest

unfoldable pub poll_text : Poll → Text
unfolding option_lines
poll_text poll =
    join (text "\n") ((text "Poll: " ++ trim_space poll.name) ∷ option_lines poll.options)

abbrev known_ext : Text → Text
known_ext base =
    if base == text "image/jpeg"
    then text ".jpg"
    else if base == text "image/png"
    then text ".png"
    else if base == text "image/gif"
    then text ".gif"
    else if base == text "image/webp"
    then text ".webp"
    else if base == text "video/mp4"
    then text ".mp4"
    else if base == text "audio/ogg"
    then text ".ogg"
    else if base == text "audio/mpeg"
    then text ".mp3"
    else if base == text "application/pdf"
    then text ".pdf"
    else []

abbrev first_or_empty : List Text → Text
first_or_empty [] = []
first_or_empty (s ∷ _) = s

abbrev short : Text → Text
short ext = if leb (byte_length ext) 12 then ext else []

-- What follows where the getter returns a value, or else.
abbrev case_of : {A B : Type 0} → Option A → (A → B) → B → B
case_of none f other = other
case_of (some a) f other = f a

abbrev with_extended : Option Text → Event → Event
with_extended none ev = ev
with_extended (some extended) ev = record ev {
  body = first_text (ev.body ∷ extended ∷ []);
  message_type = text "text";
}

module _ {D : Type 0} where
  abbrev plain_case : Text → Event → Event × Option D
  plain_case info_type ev =
      let typed =
        if ev.message_type == []
        then record ev { message_type = fallback_message_type info_type }
        else ev in
      (typed, none)

  abbrev poll_event : Event → Poll → Event × Option D
  poll_event ev poll = (record ev { message_type = text "poll"; body = poll_text poll }, none)

  abbrev bare_event : ℤ → Incoming D → Event
  bare_event now info = record {
    chat_jid = info.chat;
    chat_label = [];
    msg_id = info.id;
    sender_jid = info.sender;
    sender_name = info.push_name;
    timestamp = if info.timestamp == pos 0 then now else info.timestamp;
    from_me = info.from_me;
    body = [];
    raw_type = 0;
    message_type = [];
    media_type = [];
    media_title = [];
    media_path = [];
    media_url = [];
    media_size = pos 0;
    media_bytes = [];
    media_ext = [];
    media_hydration_status = [];
    media_hydration_attempts = 0;
    source_pk = pos 0;
  }

module _ (file_ext : Text → Text) (mime_extensions : Text → List Text) where
  -- `mediaExt`; `file_ext` is filepath.Ext, and `mime_extensions` is mime.ExtensionsByType, empty
  -- on an error.
  unfoldable pub media_ext : Text → Text → Text
  media_ext mimetype title =
      let ext = file_ext title in
      let base = to_lower (trim_space (first_or_empty (split b';' mimetype))) in
      let known = known_ext base in
      if not (ext == []) && leb (byte_length ext) 12
      then ext
      else if not (known == [])
      then known
      else short (first_or_empty (mime_extensions base))

  unfoldable pub set_media : {D : Type 0} → Text → Text → Media D → Event → Event
  unfolding media_ext uint64_to_int64
  set_media kind title media ev = record ev {
    message_type = kind;
    media_type = kind;
    media_title = title;
    media_url = media.url;
    media_size = uint64_to_int64 media.file_length;
    media_ext = media_ext media.mimetype title;
  }

  module _ {D : Type 0} where
    abbrev captioned : Text → Event → Media D → Event × Option D
    captioned kind ev media =
        let ev' = record ev { body = first_text (media.caption ∷ ev.body ∷ []) } in
        (set_media kind [] media ev', some media.source)

    abbrev document_case : Event → Media D → Event × Option D
    document_case ev doc =
        let ev' = record ev { body = first_text (doc.caption ∷ ev.body ∷ []) } in
        (
          set_media (text "document") (first_text (doc.file_name ∷ doc.title ∷ [])) doc ev',
          some doc.source,
        )

    abbrev audio_case : Event → Media D → Event × Option D
    audio_case ev media = (set_media (text "audio") [] media ev, some media.source)

    abbrev sticker_case : Event → Media D → Event × Option D
    sticker_case ev media = (set_media (text "sticker") [] media ev, none)

    -- The switch of `normalizeMessage`.
    unfoldable pub normalize_media : Text → Body D → Event → Event × Option D
    unfolding set_media first_text fallback_message_type
    normalize_media info_type body ev = case_of body.image (captioned (text "image") ev) (
        case_of body.document (document_case ev) (
          case_of body.video (captioned (text "video") ev) (
            case_of body.audio (audio_case ev) (
              case_of body.ptv (captioned (text "video") ev)
                (case_of body.sticker (sticker_case ev) (plain_case info_type ev))))))

    -- `normalizeMessage` where there is a message.
    unfoldable pub normalize_body : Text → Body D → Event → Event × Option D
    unfolding normalize_media first_text poll_creation poll_text
    normalize_body info_type body ev =
        let texted =
          with_extended body.extended_text
            (record ev { body = first_text (body.conversation ∷ []) }) in
        let medium = normalize_media info_type body texted in
        case_of (poll_creation body.polls) (poll_event texted) (
          if body.poll_update
          then (record texted { message_type = text "poll_vote" }, none)
          else medium)

    -- `now` is a reading of the clock, in Unix seconds.
    unfoldable pub normalize_message : ℤ → Incoming D → Event × Option D
    unfolding normalize_body fallback_message_type
    normalize_message now evt =
        let ev = bare_event now evt in
        case_of evt.body (λ body. normalize_body evt.info_type body ev)
          (record ev { message_type = fallback_message_type evt.info_type }, none)
