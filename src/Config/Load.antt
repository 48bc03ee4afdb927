-- ===== src/Config/Load.antt =====
-- config.go: what `Load` lets through.
use mathlib.Core.List.{append-nil, append_assoc, map-append}
use wa_agent_pipeline.Base.{
  Text, ◌≡◌, ◌≢◌, refl, sym, ap, ◌∙◌, ◌⊎◌, Bool, Option, none, true, false, List, [], ◌∷◌, ◌++◌,
  map, arith, inl, inr, All, In, In-snoc, Distinct, Distinct-snoc, contains-false_iff, ==_iff,
  text_eq, ok, Option-cases, Result-cases, >>=-eq-ok, fail_if-eq-ok, ◌||◌, not, ◌==◌, some,
  if◌then◌else◌, All-append,
}
use wa_agent_pipeline.Base.Int.{ℤ}
use wa_agent_pipeline.Texts.{trim_space}
use wa_agent_pipeline.Texts.Trim.{trim_space_idem}
use wa_agent_pipeline.Config.{
  Group, RawGroup, FileConfig, Loading, admit, checked_tenants, Disk, start, group_of, bool_default,
  supported_chat_jid, normalize_tenants, load_group, load_groups, load,
}
use wa_agent_pipeline.Config.Tenants.{IsFilled, normalize_tenants_iff}

map_filled :
    (values : List Text) → values ≢ [] → (out : List Text) → out ≡ map trim_space values → out ≢ []
map_filled [] n out e h = n refl
map_filled (v ∷ vs) n out e h = cc

-- What a listed group satisfies.
pub record IsListed (g : Group) : Type 0 where
  pub jid_supported : supported_chat_jid g.jid ≡ true
  pub jid_trimmed : trim_space g.jid ≡ g.jid
  pub label_filled : g.label ≢ []
  pub label_trimmed : trim_space g.label ≡ g.label
  pub some_tenant : g.tenants ≢ []
  pub tenants_filled : All IsFilled g.tenants
  pub tenants_distinct : Distinct g.tenants

abbrev pub jids : List Group → List Text
jids = map λ g. g.jid

abbrev pub labels : List Group → List Text
labels = map λ g. g.label

pub record IsAllowlist (groups : List Group) : Type 0 where
  pub listed : All IsListed groups
  pub jids_distinct : Distinct (jids groups)
  pub labels_distinct : Distinct (labels groups)

-- The sets of the loop hold what the slice holds.
record IsLoading (s : Loading) : Type 0 where
  pub allowlist : IsAllowlist s.out
  pub jids_seen : (x : Text) → In x (jids s.out) → In x s.seen_jid
  pub labels_seen : (x : Text) → In x (labels s.out) → In x s.seen_label

-- The switch that was written, or the default where it was left out.
abbrev pub IsSwitch : Option Bool → Bool → Bool → Type 0
IsSwitch written fallback v = (written ≡ some v) ⊎ ((written ≡ none) × (v ≡ fallback))

-- A group carries an entry of the file: its JID, its label and its tenants are the written ones,
-- trimmed, and a switch that was left out is on for the text and the media metadata and off for the
-- copies of media and the embeddings.
pub record EntryOf (raw : RawGroup) (g : Group) : Type 0 where
  pub jid : g.jid ≡ trim_space raw.jid
  pub label : g.label ≡ trim_space raw.label
  pub values : List Text
  pub given : raw.tenants ≡ some values
  pub tenants : g.tenants ≡ map trim_space values
  pub purpose : g.purpose ≡ raw.purpose
  pub ingest_text : IsSwitch raw.ingest_text true g.ingest_text
  pub ingest_media_metadata : IsSwitch raw.ingest_media_metadata true g.ingest_media_metadata
  pub copy_media : IsSwitch raw.copy_media false g.copy_media
  pub index_embeddings : IsSwitch raw.index_embeddings false g.index_embeddings
  pub retention_days : g.retention_days ≡ raw.retention_days

bool_default-IsSwitch :
    (written : Option Bool) (fallback : Bool)
    → IsSwitch written fallback (bool_default written fallback)
unfolding bool_default
bool_default-IsSwitch none fallback = inr (refl, refl)
bool_default-IsSwitch (some v) fallback = inl refl

group_of-EntryOf :
    (raw : RawGroup) (values tenants : List Text)
    → raw.tenants ≡ some values
    → tenants ≡ map trim_space values
    → EntryOf raw (group_of raw tenants)
group_of-EntryOf raw values tenants given trimmed = record {
  jid = refl;
  label = refl;
  values = values;
  given = given;
  tenants = trimmed;
  purpose = refl;
  ingest_text = bool_default-IsSwitch raw.ingest_text true;
  ingest_media_metadata = bool_default-IsSwitch raw.ingest_media_metadata true;
  copy_media = bool_default-IsSwitch raw.copy_media false;
  index_embeddings = bool_default-IsSwitch raw.index_embeddings false;
  retention_days = refl;
}

-- One group for each entry, in order.
abbrev pub Entries : List RawGroup → List Group → Type 0
Entries [] [] = Unit
Entries (raw ∷ raws) (g ∷ groups) = EntryOf raw g × Entries raws groups
Entries _ _ = ⊥

-- The round's checks, read off a round that succeeds.
record Passed (s : Loading) (raw : RawGroup) (s' : Loading) : Type 0 where
  pub tenants : List Text
  pub next : s' ≡ admit s raw tenants
  pub entry : EntryOf raw (group_of raw tenants)
  pub listed : IsListed (group_of raw tenants)
  pub jid_new : ¬ In (trim_space raw.jid) s.seen_jid
  pub label_new : ¬ In (trim_space raw.label) s.seen_label

checked_tenants-eq-ok :
    (raw : RawGroup) {tenants : List Text}
    → checked_tenants raw ≡ ok tenants
    → (values : List Text) × (raw.tenants ≡ some values) × (normalize_tenants values ≡ ok tenants)
unfolding checked_tenants
checked_tenants-eq-ok raw h = elim (Option-cases raw.tenants) [
  | inl unset ↦ absurd (ground arith)
  | inr (values, given) ↦ elim (Result-cases (normalize_tenants values)) [
    | inl (e, bad) ↦ absurd (ground arith)
    | inr (ts, good) ↦ (values, given, ground arith)
  ]
]

group_of-IsListed :
    (raw : RawGroup) (values tenants : List Text)
    → (trim_space raw.jid == [] || trim_space raw.label == []) ≡ false
    → not (supported_chat_jid (trim_space raw.jid)) ≡ false
    → normalize_tenants values ≡ ok tenants
    → IsListed (group_of raw tenants)
group_of-IsListed raw values tenants filled supported normal =
    let (given, e, f, d) = (normalize_tenants_iff values tenants).0 normal in
    record {
      jid_supported = ground arith;
      jid_trimmed = trim_space_idem raw.jid;
      label_filled = ground (arith, ==_iff (trim_space raw.label) []);
      label_trimmed = trim_space_idem raw.label;
      some_tenant = map_filled values given tenants e;
      tenants_filled = f;
      tenants_distinct = d;
    }

load_group-Passed :
    (s : Loading) (raw : RawGroup) {s' : Loading} → load_group s raw ≡ ok s' → Passed s raw s'
unfolding load_group
load_group-Passed s raw {s'} h =
    let (filled, h) = fail_if-eq-ok _ _ _ h in
    let (supported, h) = fail_if-eq-ok _ _ _ h in
    let (jid_new, h) = fail_if-eq-ok _ _ _ h in
    let (label_new, h) = fail_if-eq-ok _ _ _ h in
    let (tenants, checked, h) = >>=-eq-ok (checked_tenants raw) (λ ts. ok (admit s raw ts)) h in
    let (values, given, normal) = checked_tenants-eq-ok raw checked in
    record {
      tenants = tenants;
      next = ground arith;
      entry =
          group_of-EntryOf raw values tenants given
            ((normalize_tenants_iff values tenants).0 normal).1;
      listed = group_of-IsListed raw values tenants filled supported normal;
      jid_new = (contains-false_iff _ _).0 jid_new;
      label_new = (contains-false_iff _ _).0 label_new;
    }

In-seen :
    (f : Group → Text) (groups : List Group) (seen : List Text) (g : Group)
    → ((x : Text) → In x (map f groups) → In x seen)
    → (x : Text) → In x (map f (groups ++ g ∷ []))
    → In x (f g ∷ seen)
In-seen f groups seen g h x m = elim (In-snoc x (f g) (map f groups) (rw map-append at m)) [
  | inl old ↦ inr (h x old)
  | inr e ↦ inl e
]

load_group-IsLoading :
    (s : Loading) (raw : RawGroup) {s' : Loading}
    → load_group s raw ≡ ok s'
    → IsLoading s
    → IsLoading s'
load_group-IsLoading s raw {s'} h v =
    let p = load_group-Passed s raw h in
    let g = group_of raw p.tenants in
    rw p.next (record {
      allowlist = record {
        listed = All-append IsListed s.out (g ∷ []) v.allowlist.listed (p.listed, tt);
        jids_distinct = rw map-append (
            Distinct-snoc g.jid (jids s.out) v.allowlist.jids_distinct
              (λ m. p.jid_new (v.jids_seen g.jid m)));
        labels_distinct = rw map-append (
            Distinct-snoc g.label (labels s.out) v.allowlist.labels_distinct
              (λ m. p.label_new (v.labels_seen g.label m)));
      };
      jids_seen = In-seen (λ g. g.jid) s.out s.seen_jid g v.jids_seen;
      labels_seen = In-seen (λ g. g.label) s.out s.seen_label g v.labels_seen;
    })

load_groups-IsLoading :
    (s : Loading) (raws : List RawGroup) {s' : Loading}
    → load_groups s raws ≡ ok s'
    → IsLoading s
    → IsLoading s'
unfolding load_groups
load_groups-IsLoading s [] h v = let e : s ≡ _ = ground arith in rw e at v
load_groups-IsLoading s (raw ∷ rest) h v =
    let (s₁, first, h) = >>=-eq-ok (load_group s raw) (λ s₁. load_groups s₁ rest) h in
    load_groups-IsLoading s₁ rest h (load_group-IsLoading s raw first v)

load_groups-Entries :
    (s : Loading) (raws : List RawGroup) {s' : Loading}
    → load_groups s raws ≡ ok s'
    → (groups : List Group) × (s'.out ≡ s.out ++ groups) × Entries raws groups
unfolding load_groups
load_groups-Entries s [] {s'} h =
    let e : s ≡ s' = ground arith in ([], rw append-nil (ap (λ (l : Loading). l.out) (sym e)), tt)
load_groups-Entries s (raw ∷ rest) h =
    let (s₁, first, h) = >>=-eq-ok (load_group s raw) (λ s₁. load_groups s₁ rest) h in
    let p = load_group-Passed s raw first in
    let (groups, e, entries) = load_groups-Entries s₁ rest h in
    let g = group_of raw p.tenants in
    (
      g ∷ groups,
      e ∙ ap (λ (l : Loading). l.out ++ groups) p.next ∙ append_assoc s.out (g ∷ []) groups,
      (p.entry, entries),
    )

start-IsLoading : IsLoading start
start-IsLoading = record {
  allowlist = record { listed = tt; jids_distinct = tt; labels_distinct = tt };
  jids_seen = λ x m. m;
  labels_seen = λ x m. m;
}

abbrev pub enabled_entries : FileConfig → List RawGroup
enabled_entries fc = if fc.enabled then fc.groups else []

load_parts :
    (disk : Disk) {groups : List Group} {mod_time : ℤ}
    → load disk ≡ ok (groups, mod_time)
    → (fc : FileConfig) × (s : Loading) × (disk.content ≡ ok fc)
      × (load_groups start (enabled_entries fc) ≡ ok s)
      × (s.out ≡ groups)
unfolding load
load_parts disk h = elim (Result-cases disk.content) [
  | inl (e, bad) ↦ absurd (ground arith)
  | inr (fc, read) ↦ elim (Result-cases (load_groups start (enabled_entries fc))) [
    | inl (e, bad) ↦ absurd (ground arith)
    | inr (s, looped) ↦ (fc, s, read, looped, ground arith)
  ]
]

-- Where `Load` succeeds, every group has a supported trimmed JID, a nonempty trimmed label and
-- distinct nonempty tenants, at least one; and no JID and no label stands twice.
pub load-IsAllowlist :
    (disk : Disk) (groups : List Group) (mod_time : ℤ)
    → load disk ≡ ok (groups, mod_time)
    → IsAllowlist groups
load-IsAllowlist disk groups mod_time h =
    let (fc, s, read, looped, e) = load_parts disk h in
    rw e at (load_groups-IsLoading start (enabled_entries fc) looped start-IsLoading).allowlist

-- Where `Load` succeeds, its groups are the entries of the file, one each and in order, with their
-- JIDs, labels and tenants trimmed, their purposes, days and written switches as they are, a
-- left-out switch on for the text and the media metadata and off for the copies of media and the
-- embeddings; and there is none if the file is not enabled.
pub load-Entries :
    (disk : Disk) (groups : List Group) (mod_time : ℤ)
    → load disk ≡ ok (groups, mod_time)
    → (fc : FileConfig) × (disk.content ≡ ok fc) × Entries (enabled_entries fc) groups
load-Entries disk groups mod_time h =
    let (fc, s, read, looped, e) = load_parts disk h in
    let (gs, e', entries) = load_groups-Entries start (enabled_entries fc) looped in
    (fc, read, rw (sym e' ∙ e) at entries)
