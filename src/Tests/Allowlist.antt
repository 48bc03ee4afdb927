-- ===== src/Tests/Allowlist.antt =====
-- The theorems on the allowlist, at concrete inputs.
use wa_agent_pipeline.Base.{
  nat_eq, Text, ◌≡◌, ◌⊎◌, ◌↔◌, refl, true, none, some, List, [], ◌∷◌, map, In, ok, err, text_eq,
  contains, beq_text,
}
use wa_agent_pipeline.Base.Int.{ℤ, pos}
use wa_agent_pipeline.Texts.{trim_space, split}
use wa_agent_pipeline.Config.{
  Group, FileConfig, LoadError, load, load_group, checked_tenants, normalize_tenants,
  supported_chat_jid, bool_default,
}
use wa_agent_pipeline.Config.Jid.{IsChatJid, supported_chat_jid_iff}
use wa_agent_pipeline.Config.Load.{
  IsAllowlist, Entries, enabled_entries, load-IsAllowlist, load-Entries,
}
use wa_agent_pipeline.Config.Manager.{Manager, Change, empty, offer, reload, group}
use wa_agent_pipeline.Config.Manager.Reload.{reload-group, reload_notifies}
use wa_agent_pipeline.Config.Manager.Maps.{nil-IsMap}
use wa_agent_pipeline.Tests.{family, family_disk, family_jid}

family_loads : load family_disk ≡ ok (family ∷ [], pos 7)
unfolding load load_group beq_text trim_space supported_chat_jid split contains checked_tenants
    normalize_tenants bool_default
family_loads = refl

load-IsAllowlist_example : IsAllowlist (family ∷ [])
load-IsAllowlist_example = load-IsAllowlist family_disk (family ∷ []) (pos 7) family_loads

load-Entries_example :
    (fc : FileConfig) × (family_disk.content ≡ ok fc) × Entries (enabled_entries fc) (family ∷ [])
load-Entries_example = load-Entries family_disk (family ∷ []) (pos 7) family_loads

supported_chat_jid_iff_example :
    (supported_chat_jid family_jid ≡ true)
    ↔ ((user : Text) × (server : Text) × IsChatJid family_jid user server)
supported_chat_jid_iff_example = supported_chat_jid_iff family_jid

-- A manager that has loaded nothing, with one subscriber.
abbrev watched_manager : Manager
watched_manager = record (empty) { subs = [] ∷ [] }

reload-group_example :
    ((e : LoadError) × (reload family_disk watched_manager ≡ (err e, watched_manager)))
    ⊎ ((gs : List Group) × (t : ℤ) × (load family_disk ≡ ok (gs, t))
        × ((reload family_disk watched_manager).0 ≡ ok tt)
        × ((jid : Text) (g : Group)
            → (group (reload family_disk watched_manager).1 jid ≡ some g)
              ↔ (In g gs × (g.jid ≡ jid))))
reload-group_example = reload-group family_disk watched_manager

reload_notifies_example :
    (((jid : Text) → group (reload family_disk watched_manager).1 jid ≡ group watched_manager jid)
      × ((reload family_disk watched_manager).1.subs ≡ [] ∷ []))
    ⊎ ((¬ (
          (jid : Text)
          → group (reload family_disk watched_manager).1 jid ≡ group watched_manager jid))
        × (ch : Change) × ((reload family_disk watched_manager).1.subs ≡ map (offer ch) ([] ∷ []))
        × ((g : Group)
            → In g ch.added ↔ (
                (group watched_manager g.jid ≡ none)
                × (group (reload family_disk watched_manager).1 g.jid ≡ some g))))
reload_notifies_example =
    reload_notifies family_disk watched_manager (family ∷ []) (pos 7) nil-IsMap family_loads
