-- ===== src/Unseen/Chats.antt =====
-- unseen.go: the chats of a tenant, `TenantGroupJIDs`.
use wa_agent_pipeline.Base.{
  Text, ◌≡◌, ◌≢◌, ◌⊎◌, ◌↔◌, Option, some, inl, inr, refl, true, false, not, ◌&&◌, List, [], ◌∷◌,
  ◌++◌, arith, Bool-cases, Result, ok, ◌>>=◌, >>=-eq-ok, In, In-append, contains, contains_iff,
  ==_iff, text_eq, ◌==◌, if◌then◌else◌,
}
use wa_agent_pipeline.Texts.{trim_space}
use wa_agent_pipeline.Unseen.{
  RawEntry, ConfigFile, raw_string, group_tenants, owned_jid, owned_jids, tenant_group_jids,
}
use wa_agent_pipeline.Unseen.Tenants.{group_tenants-Reads, raw_string-filled}

-- The entry lists tenants: one at least, and all of them texts that are not blank.
pub record HasTenants (group : RawEntry) : Type 0 where
  pub values : List (Option Text)
  pub listed : group.tenants ≡ some (some values)
  pub filled : values ≢ []
  pub texts :
      (value : Option Text) → In value values → (t : Text) × (value ≡ some t) × (trim_space t ≢ [])

-- The entry gives the chat to the tenant: it names the chat, and the tenant is one of the texts
-- that it lists, trimmed.
pub record Grants (group : RawEntry) (tenant jid : Text) : Type 0 where
  pub name : Text
  pub written : group.jid ≡ some name
  pub named : jid ≡ trim_space name
  pub filled : jid ≢ []
  pub values : List (Option Text)
  pub listed : group.tenants ≡ some (some values)
  pub value : Text
  pub held : In (some value) values
  pub shared : trim_space value ≡ tenant

owned_jid_iff :
    (group : RawEntry) (tenant jid : Text) (tenants : List Text)
    → group_tenants group ≡ ok tenants
    → In jid (owned_jid group tenant tenants) ↔ Grants group tenant jid
owned_jid_iff group tenant jid tenants valid =
    let name = trim_space (raw_string group.jid []) in
    let r = group_tenants-Reads group tenants valid in
    elim (Bool-cases (not (name == []) && contains tenants tenant)) [
      | inl given ↦ rw given (
        λ m. elim m [
          | inl e ↦
              let filled : jid ≢ [] = ground (arith, e, given, ==_iff name []) in
              let (raw, written, named) = raw_string-filled group.jid jid e filled in
              let shared = (contains_iff tenants tenant).0 (ground (arith, given)) in
              let (value, held, same) = (r.trimmed.trimmed tenant).0 shared in
              record {
                name = raw;
                written = written;
                named = named;
                filled = filled;
                values = r.values;
                listed = r.listed;
                value = value;
                held = held;
                shared = same;
              }
          | inr n ↦ absurd n
        ],
        λ g. inl (ground (arith, g.named, g.written)),
      )
      | inr withheld ↦ rw withheld (
        λ m. absurd m,
        λ g.
            let same : g.values ≡ r.values = ground (arith, g.listed, r.listed) in
            let shared = (r.trimmed.trimmed tenant).1 (g.value, rw same at g.held, g.shared) in
            let is = (contains_iff tenants tenant).1 shared in
            let e : jid ≡ name = ground (arith, g.named, g.written) in
            absurd (ground (arith, withheld, is, e, g.filled, ==_iff name [])),
      )
    ]

owned_jids_iff :
    (groups : List RawEntry) (tenant : Text) (jids : List Text)
    → owned_jids groups tenant ≡ ok jids
    → (jid : Text) → In jid jids ↔ ((group : RawEntry) × In group groups × Grants group tenant jid)
unfolding owned_jids
owned_jids_iff [] tenant jids h jid =
    let e : jids ≡ [] = ground (arith, h) in rw e (λ m. absurd m, λ (g, m, _). absurd m)
owned_jids_iff (group ∷ groups) tenant jids h jid =
    let (tenants, valid, h₁) =
      >>=-eq-ok (group_tenants group)
        (λ tenants.
          owned_jids groups tenant >>= λ jids. ok (owned_jid group tenant tenants ++ jids))
        h in
    let (later, rest, h₂) =
      >>=-eq-ok (owned_jids groups tenant) (λ jids. ok (owned_jid group tenant tenants ++ jids))
        h₁ in
    let e : jids ≡ owned_jid group tenant tenants ++ later = ground (arith, h₂) in
    let (split, join) = In-append jid (owned_jid group tenant tenants) later in
    let (to, from) = owned_jid_iff group tenant jid tenants valid in
    let (to', from') = owned_jids_iff groups tenant later rest jid in
    rw e (
      λ m. elim (split m) [
        | inl here ↦ (group, inl refl, to here)
        | inr there ↦ let (g, i, grant) = to' there in (g, inr i, grant)
      ],
      λ (g, i, grant). join (elim i [
        | inl same ↦ inl (from (rw same at grant))
        | inr there ↦ inr (from' (g, there, grant))
      ]),
    )

owned_jids-HasTenants :
    (groups : List RawEntry) (tenant : Text) (jids : List Text)
    → owned_jids groups tenant ≡ ok jids
    → (group : RawEntry) → In group groups
    → HasTenants group
unfolding owned_jids
owned_jids-HasTenants [] tenant jids h group i = absurd i
owned_jids-HasTenants (first ∷ groups) tenant jids h group i =
    let (tenants, valid, h₁) =
      >>=-eq-ok (group_tenants first)
        (λ tenants.
          owned_jids groups tenant >>= λ jids. ok (owned_jid first tenant tenants ++ jids))
        h in
    let (later, rest, h₂) =
      >>=-eq-ok (owned_jids groups tenant) (λ jids. ok (owned_jid first tenant tenants ++ jids))
        h₁ in
    let r = group_tenants-Reads first tenants valid in
    elim i [
      | inl same ↦ rw same (record {
        values = r.values;
        listed = r.listed;
        filled = r.filled;
        texts = r.trimmed.texts;
      })
      | inr j ↦ owned_jids-HasTenants groups tenant later rest group j
    ]

-- Where `TenantGroupJIDs` succeeds, the configuration was read; where it is enabled, every entry
-- lists tenants, one at least and none of them blank; and a chat is in the result exactly when the
-- configuration is enabled and an entry of it names the chat, not empty when trimmed, and lists a
-- text that is the tenant when trimmed.
pub tenant_group_jids_iff :
    (config : Result Text ConfigFile) (tenant : Text) (jids : List Text)
    → tenant_group_jids config tenant ≡ ok jids
    → (cfg : ConfigFile) × (config ≡ ok cfg)
      × ((cfg.enabled ≡ false) ⊎ ((group : RawEntry) → In group cfg.groups → HasTenants group))
      × ((jid : Text)
          → In jid jids ↔ (
              (cfg.enabled ≡ true)
              × (group : RawEntry) × In group cfg.groups
              × Grants group tenant jid))
unfolding tenant_group_jids
tenant_group_jids_iff config tenant jids h =
    let (cfg, read, h₁) =
      >>=-eq-ok config (λ cfg. if cfg.enabled then owned_jids cfg.groups tenant else ok []) h in
    (
      cfg,
      read,
      elim (Bool-cases cfg.enabled) [
        | inl on ↦ inr (owned_jids-HasTenants cfg.groups tenant jids (rw on at h₁))
        | inr off ↦ inl off
      ],
      λ jid. elim (Bool-cases cfg.enabled) [
        | inl on ↦
            let (to, from) = owned_jids_iff cfg.groups tenant jids (rw on at h₁) jid in
            (
              λ m. let (g, i, grant) = to m in (on, g, i, grant),
              λ (_, g, i, grant). from (g, i, grant),
            )
        | inr off ↦
            let e : jids ≡ [] = ground (arith, h₁, off) in
            rw e (λ m. absurd m, λ (on, _, _, _). absurd (ground (arith, on, off)))
      ],
    )
