-- ===== src/Config.antt =====
-- whatsapp-daemon/internal/config/config.go: the allowlist's data and its validation (`Load`).
-- The answers of `os.ReadFile`, `json.Unmarshal` and `os.Stat` are the fields of a `Disk`.
pub mod Jid
pub mod Tenants
pub mod Load
pub mod Equality
pub mod Manager
use wa_agent_pipeline.Base.{
  ℕ, Text, Bool, true, false, not, ◌&&◌, ◌||◌, Option, none, some, List, [], ◌∷◌, ◌++◌, Result, ok,
  err, ◌>>=◌, ◌>>◌, fail_if, contains, ◌==◌, text_eq, nat_eq, if◌then◌else◌,
}
use wa_agent_pipeline.Base.Int.{ℤ, int_eq}
use wa_agent_pipeline.Texts.{text, trim_space, split, is_digit}

pub record Group : Type 0 where
  pub jid : Text
  pub label : Text
  pub tenants : List Text
  pub purpose : Text
  pub ingest_text : Bool
  pub ingest_media_metadata : Bool
  pub copy_media : Bool
  pub index_embeddings : Bool
  pub retention_days : Option ℤ

-- A nil pointer is `none`: the key was left out of the file.
pub record RawGroup : Type 0 where
  pub jid : Text
  pub label : Text
  pub tenants : Option (List Text)
  pub purpose : Text
  pub ingest_text : Option Bool
  pub ingest_media_metadata : Option Bool
  pub copy_media : Option Bool
  pub index_embeddings : Option Bool
  pub retention_days : Option ℤ

pub record FileConfig : Type 0 where
  pub enabled : Bool
  pub groups : List RawGroup

pub data TenantError : Type 0 where
  no_tenants empty_tenant : TenantError
  duplicate_tenant : Text → TenantError

-- The error that `Load` returns; `unreadable` carries that of a library call.
pub data LoadError : Type 0 where
  unreadable : Text → LoadError
  missing_jid_or_label : LoadError
  unsupported_jid : Text → LoadError
  duplicate_jid : Text → LoadError
  duplicate_label : Text → LoadError
  tenants_not_set : Text → LoadError
  bad_tenants : Text → TenantError → LoadError

unfoldable pub bool_default : Option Bool → Bool → Bool
bool_default none fallback = fallback
bool_default (some v) fallback = v

-- No character outside '0'..'9'.
unfoldable pub all_digits : Text → Bool
all_digits [] = true
all_digits (r ∷ rest) = is_digit r && all_digits rest

abbrev supported_parts : List Text → Bool
supported_parts (user ∷ server ∷ []) =
    if user == []
    then false
    else if server == text "g.us"
    then true
    else if server == text "s.whatsapp.net" || server == text "lid"
    then all_digits user
    else false
supported_parts _ = false

unfoldable pub supported_chat_jid : Text → Bool
supported_chat_jid jid = supported_parts (split b'@' jid)

-- The loop of `normalizeTenants`, from the tenants seen so far, which are those of `out`.
normalize_from : List Text → List Text → Result TenantError (List Text)
normalize_from out [] = ok out
normalize_from out (value ∷ values) =
    let tenant = trim_space value in
    let rest = normalize_from (out ++ tenant ∷ []) values in
    if tenant == []
    then err empty_tenant
    else if contains out tenant
    then err (duplicate_tenant tenant)
    else rest

unfoldable pub normalize_tenants : List Text → Result TenantError (List Text)
unfolding normalize_from
normalize_tenants [] = err no_tenants
normalize_tenants (value ∷ values) = normalize_from [] (value ∷ values)

-- The variables of the loop of `Load`: the two sets and the slice.
pub record Loading : Type 0 where
  pub seen_jid : List Text
  pub seen_label : List Text
  pub out : List Group

abbrev pub start : Loading
start = record { seen_jid = []; seen_label = []; out = [] }

abbrev some_or {ℓ} : {A E : Type ℓ} → Option A → E → Result E A
some_or none e = err e
some_or (some a) e = ok a

abbrev wrap_tenants : Text → Result TenantError (List Text) → Result LoadError (List Text)
wrap_tenants jid (ok tenants) = ok tenants
wrap_tenants jid (err e) = err (bad_tenants jid e)

-- The group of a raw entry whose texts have been checked.
abbrev pub group_of : RawGroup → List Text → Group
group_of raw tenants = record {
  jid = trim_space raw.jid;
  label = trim_space raw.label;
  tenants = tenants;
  purpose = raw.purpose;
  ingest_text = bool_default raw.ingest_text true;
  ingest_media_metadata = bool_default raw.ingest_media_metadata true;
  copy_media = bool_default raw.copy_media false;
  index_embeddings = bool_default raw.index_embeddings false;
  retention_days = raw.retention_days;
}

-- The tenants of a raw entry: they must be written out, and be in order.
unfoldable pub checked_tenants : RawGroup → Result LoadError (List Text)
checked_tenants raw = do
  let jid = trim_space raw.jid
  values ← some_or raw.tenants (tenants_not_set jid)
  wrap_tenants jid (normalize_tenants values)

-- The end of a round: the two sets and the slice grow by the entry.
abbrev pub admit : Loading → RawGroup → List Text → Loading
admit s raw tenants = record {
  seen_jid = trim_space raw.jid ∷ s.seen_jid;
  seen_label = trim_space raw.label ∷ s.seen_label;
  out = s.out ++ group_of raw tenants ∷ [];
}

-- One round of the loop of `Load`.
unfoldable pub load_group : Loading → RawGroup → Result LoadError Loading
load_group s raw = do
  let jid = trim_space raw.jid
  let label = trim_space raw.label
  fail_if (jid == [] || label == []) missing_jid_or_label
  fail_if (not (supported_chat_jid jid)) (unsupported_jid jid)
  fail_if (contains s.seen_jid jid) (duplicate_jid jid)
  fail_if (contains s.seen_label label) (duplicate_label label)
  tenants ← checked_tenants raw
  ok (admit s raw tenants)

unfoldable pub load_groups : Loading → List RawGroup → Result LoadError Loading
load_groups s [] = ok s
load_groups s (raw ∷ rest) = load_group s raw >>= λ s'. load_groups s' rest

-- What the file system answers for the path of the allowlist: the decoded file, or the error of
-- reading or decoding it, and the modification time, or the error of `os.Stat`.
pub record Disk : Type 0 where
  pub content : Result Text FileConfig
  pub mod_time : Result Text ℤ

abbrev or_unreadable : {A : Type 0} → Result Text A → Result LoadError A
or_unreadable (ok a) = ok a
or_unreadable (err e) = err (unreadable e)

unfoldable pub load : Disk → Result LoadError (List Group × ℤ)
unfolding load_groups
load disk = do
  fc ← or_unreadable disk.content
  s ← load_groups start (if fc.enabled then fc.groups else [])
  mod_time ← or_unreadable disk.mod_time
  ok (s.out, mod_time)

unfoldable pub has_tenant : Group → Text → Bool
has_tenant g tenant = contains g.tenants tenant

unfoldable pub same_strings : List Text → List Text → Bool
same_strings [] [] = true
same_strings (s ∷ a) (t ∷ b) = s == t && same_strings a b
same_strings _ _ = false

abbrev same_retention : Option ℤ → Option ℤ → Bool
same_retention none none = true
same_retention (some a) (some b) = a == b
same_retention _ _ = false

abbrev beq_bool : Bool → Bool → Bool
beq_bool true b = b
beq_bool false b = not b

unfoldable pub same_group : Group → Group → Bool
unfolding same_strings
same_group a b =
    a.jid == b.jid
    && a.label == b.label
    && a.purpose == b.purpose
    && beq_bool a.ingest_text b.ingest_text
    && beq_bool a.ingest_media_metadata b.ingest_media_metadata
    && beq_bool a.copy_media b.copy_media
    && beq_bool a.index_embeddings b.index_embeddings
    && same_strings a.tenants b.tenants
    && same_retention a.retention_days b.retention_days
