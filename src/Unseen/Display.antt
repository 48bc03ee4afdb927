-- ===== src/Unseen/Display.antt =====
-- unseen.go: the text of the digest, `displayFor` and `writeOutput`. The formats of times and sizes,
-- which go through floats and package `time`, and `filepath.Ext` are the libraries'.
use wa_agent_pipeline.Base.{
  ℕ, Text, Bool, true, false, not, ◌&&◌, ◌||◌, Option, none, some, List, [], ◌∷◌, ◌++◌, map, length,
  take, leb, lookup, insert, ◌==◌, nat_eq, text_eq, contains, if◌then◌else◌,
}
use wa_agent_pipeline.Base.Int.{ℤ, pos, int_eq}
use wa_agent_pipeline.Texts.{text, trim_space, to_lower, has_infix}
use wa_agent_pipeline.Texts.Decimal.{print_int}
use wa_agent_pipeline.Writer.{MessageRow}
use wa_agent_pipeline.Unseen.{or_empty, or_zero, needs_surface_mark}

abbrev pub hydrated_snippet_chars : ℕ
hydrated_snippet_chars = 600

abbrev media_types : List Text
media_types = text "image" ∷ text "document" ∷ text "video" ∷ text "audio" ∷ []

-- strings.ReplaceAll of a text of one character
unfoldable pub replace_all : ℕ → Text → Text → Text
replace_all old new [] = []
replace_all old new (c ∷ s) =
    let rest = replace_all old new s in if c == old then new ++ rest else c ∷ rest

-- `truncateRunes`
unfoldable pub truncate_runes : Text → ℕ → Text × Bool
truncate_runes value limit =
    if leb (length value) limit then (value, false) else (take limit value, true)

abbrev kind : MessageRow → Text
kind row = to_lower (or_empty row.message_type)

-- The title of a file: short, with a dot, and no path.
abbrev is_file_title : Text → Bool
is_file_title title =
    not (title == [])
    && has_infix (text ".") title
    && leb (length title) 200
    && not (has_infix (text "/") title)
    && not (has_infix (text "+") title)

abbrev bracketed : List Text → Text
bracketed [] = []
bracketed (a ∷ []) = text "[" ++ a ++ text "]"
bracketed (a ∷ b ∷ []) = text "[" ++ a ++ text ": " ++ b ++ text "]"
bracketed (a ∷ b ∷ c ∷ _) = text "[" ++ a ++ text ": " ++ b ++ text " · " ++ c ++ text "]"

module _ (ext : Text → Text) (human_size : ℤ → Text) where
  abbrev path_part : Text → List Text
  path_part path = if path == [] || ext path == [] then [] else (text "*" ++ ext path) ∷ []

  abbrev size_part : ℤ → List Text
  size_part size = if size == pos 0 then [] else human_size size ∷ []

  -- `mediaPlaceholder`
  unfoldable pub media_placeholder : MessageRow → Text
  unfolding has_infix
  media_placeholder row =
      let mtype = if kind row == [] then text "media" else kind row in
      let title = trim_space (or_empty row.media_title) in
      let named = if is_file_title title then title ∷ [] else path_part (or_empty row.media_path) in
      bracketed (mtype ∷ named ++ size_part (or_zero row.media_size))

  abbrev plain_display : MessageRow → Text
  plain_display row =
      let body = trim_space (or_empty row.body) in
      if not (body == [])
      then body
      else if contains media_types (kind row)
      then media_placeholder row
      else text "[" ++ (if kind row == [] then text "unknown" else kind row) ++ text "]"

  abbrev snippet : Text → Text
  snippet extracted =
      let (head, truncated) = truncate_runes extracted hydrated_snippet_chars in
      replace_all b'\n' (text " / ") head ++ (if truncated then text "…" else [])

  abbrev tag : Text → Text
  tag extracted_by =
      if extracted_by == []
      then text "extracted"
      else text "extracted (" ++ extracted_by ++ text ")"

  abbrev hydrated_display : Text → Text → MessageRow → Text
  hydrated_display display id row =
      let extracted = trim_space (or_empty row.media_extracted_text) in
      let local = or_empty row.media_local_path in
      if not (extracted == [])
      then display
        ++ text " → "
        ++ tag (trim_space (or_empty row.media_extracted_by))
        ++ text ": "
        ++ snippet extracted
      else if not (local == [])
      then display
        ++ text " → file: "
        ++ local
        ++ text " (id: "
        ++ id
        ++ text "; open with `read` if action-relevant)"
      else display

  -- `displayFor`
  unfoldable pub display_for : Text × MessageRow → Text
  unfolding media_placeholder truncate_runes replace_all needs_surface_mark
  display_for (id, row) =
      let display = plain_display row in
      if needs_surface_mark row then hydrated_display display id row else display

-- `byGroup` and `groupOrder` of `writeOutput`.
pub record Grouping : Type 0 where
  pub order : List Text
  pub by_group : List (Text × List (Text × MessageRow))

abbrev pub grouped : Option (List (Text × MessageRow)) → Text × MessageRow → Grouping → Grouping
grouped none msg g = record {
  order = g.order ++ msg.1.chat_label ∷ [];
  by_group = insert msg.1.chat_label (msg ∷ []) g.by_group;
}
grouped (some msgs) msg g = record g {
  by_group = insert msg.1.chat_label (msgs ++ msg ∷ []) g.by_group;
}

-- The first loop of `writeOutput`.
unfoldable pub group_messages : Grouping → List (Text × MessageRow) → Grouping
group_messages g [] = g
group_messages g (msg ∷ msgs) =
    group_messages (grouped (lookup msg.1.chat_label g.by_group) msg g) msgs

-- What `writeOutput` makes of a display before it prints it.
unfoldable pub one_line : Text → Text
unfolding replace_all
one_line display = replace_all b'\r' (text " ") (replace_all b'\n' (text " / ") display)

abbrev pub or_nil : Option (List (Text × MessageRow)) → List (Text × MessageRow)
or_nil none = []
or_nil (some msgs) = msgs

abbrev first_jid : List (Text × MessageRow) → Text
first_jid [] = []
first_jid (msg ∷ _) = msg.1.chat_jid

module _ (since_format : ℤ → Text) (time_format : ℤ → Text)
    (display : Text × MessageRow → Text) where
  abbrev pub message_line : Text × MessageRow → Text
  message_line msg =
      let sender = or_empty msg.1.sender_name in
      text "- ["
      ++ time_format msg.1.ts
      ++ text "] ["
      ++ (if sender == [] then text "?" else sender)
      ++ text "] "
      ++ one_line (display msg)

  abbrev group_lines : Text → List (Text × MessageRow) → List Text
  group_lines label msgs =
      (text "## "
          ++ label
          ++ text " — jid: `"
          ++ first_jid msgs
          ++ text "`  ("
          ++ print_int (pos (length msgs))
          ++ text " messages)")
        ∷ []
        ∷ map message_line msgs
      ++ [] ∷ []

  all_group_lines : List Text → List (Text × List (Text × MessageRow)) → List Text
  all_group_lines [] by_group = []
  all_group_lines (label ∷ order) by_group =
      group_lines label (or_nil (lookup label by_group)) ++ all_group_lines order by_group

  -- The lines of `writeOutput`.
  unfoldable pub write_output : ℤ → List (Text × MessageRow) → List Text
  unfolding group_messages one_line all_group_lines print_int
  write_output cutoff msgs =
      let g = group_messages (record { order = []; by_group = [] }) msgs in
      (text "# Unseen parent-group messages since " ++ since_format cutoff)
        ∷ (text "# "
            ++ print_int (pos (length msgs))
            ++ text " messages across "
            ++ print_int (pos (length g.order))
            ++ text " group(s)")
        ∷ []
        ∷ (if length msgs == 0 then text "(no new messages)" ∷ [] else [])
      ++ all_group_lines g.order g.by_group
