-- ===== src/Tests/Backfilling.antt =====
-- The theorems on the summaries of a backfill, at concrete inputs.
use wa_agent_pipeline.Base.{
  nat_eq, Text, ◌≡◌, ◌⊎◌, ◌↔◌, refl, true, false, false, List, [], text_eq,
}
use wa_agent_pipeline.Base.Int.{pos}
use wa_agent_pipeline.Backfill.{Summary, verdict, merge_summaries}
use wa_agent_pipeline.Backfill.Verdicts.{
  IsViable, IsLeastDate, IsGreatestDate, merge_summaries-verdict,
}

abbrev nothing_found : Summary
nothing_found = record {
  sync_type = [];
  conversations = 0;
  messages = 0;
  requested_chat_messages = 0;
  media_envelopes = 0;
  pruned_age_media_envelopes = 0;
  min_timestamp = pos 0;
  max_timestamp = pos 0;
  chat_jids = [];
  contains_requested_chat = false;
  same_day_before_anchor = false;
  oldest_requested_chat = record {
    chat_jid = [];
    msg_id = [];
    sender_jid = [];
    timestamp = pos 0;
    from_me = false;
  };
  oldest_requested_chat_found = false;
}

abbrev one_image : Summary
one_image = record nothing_found {
  messages = 1;
  media_envelopes = 1;
  min_timestamp = pos 80;
  max_timestamp = pos 80;
  same_day_before_anchor = true;
}

abbrev unsorted : List Text → List Text
unsorted jids = jids

one_image_viable : (verdict one_image).0 ≡ true
unfolding verdict
one_image_viable = refl

merge_summaries-verdict_example :
    (((verdict (merge_summaries unsorted nothing_found one_image)).0 ≡ true)
      ↔ IsViable (merge_summaries unsorted nothing_found one_image))
    × (IsViable (merge_summaries unsorted nothing_found one_image)
        ⊎ ((¬ IsViable nothing_found) × (¬ IsViable one_image)))
    × IsLeastDate (pos 0) (pos 80) (merge_summaries unsorted nothing_found one_image).min_timestamp
    × IsGreatestDate
        (pos 0)
        (pos 80)
        (merge_summaries unsorted nothing_found one_image).max_timestamp
merge_summaries-verdict_example = merge_summaries-verdict unsorted nothing_found one_image
