-- ===== src/Config/Manager/Reload.antt =====
-- config.go: what `Reload` makes of the map, and when it wakes the subscribers.
use wa_agent_pipeline.Base.{
  Text, ◌≡◌, ◌↔◌, ◌⊎◌, inl, inr, sym, ◌∙◌, false, not, none, some, List, [], map, arith, Bool-cases,
  Option-cases, In, In-of_same_length, ==_iff, text_eq, nat_eq, length, lookup, length-map,
  length-le_of_In, ◌≤◌, keys, In-keys_of_lookup, lookup_of_In-keys, In-of_lookup, lookup_of_In, ok,
  err, ◌==◌, Result-cases,
}
use wa_agent_pipeline.Base.Int.{ℤ}
use wa_agent_pipeline.Config.{Group, Disk, LoadError, load}
use wa_agent_pipeline.Config.Load.{load-IsAllowlist}
use wa_agent_pipeline.Config.Manager.{
  Manager, Change, Diff, index_groups, compare_maps, offer, replace, reload, group,
}
use wa_agent_pipeline.Config.Manager.Maps.{
  IsMap, index_groups_iff, compare_maps-Compared, replace-IsMap,
}

reload_ok :
    (disk : Disk) (m : Manager) {gs : List Group} {t : ℤ}
    → load disk ≡ ok (gs, t)
    → reload disk m ≡ (ok tt, replace gs t m)
unfolding reload
reload_ok disk m h = rw (h, reload)

-- After a reload that succeeds, exactly the chats of the loaded list are allowed, each with its
-- group; after one that fails, the manager is what it was.
pub reload-group :
    (disk : Disk) (m : Manager)
    → ((e : LoadError) × (reload disk m ≡ (err e, m)))
      ⊎ ((gs : List Group) × (t : ℤ) × (load disk ≡ ok (gs, t))
          × ((reload disk m).0 ≡ ok tt)
          × ((jid : Text) (g : Group)
              → (group (reload disk m).1 jid ≡ some g) ↔ (In g gs × (g.jid ≡ jid))))
unfolding reload group replace
reload-group disk m = elim (Result-cases (load disk)) [
  | inl (e, bad) ↦ inl (e, rw (bad, reload))
  | inr ((gs, t), good) ↦ inr (
    gs,
    t,
    good,
    rw (good, reload),
    λ jid g.
        rw (good, reload)
          (index_groups_iff jid g gs (load-IsAllowlist disk gs t good).jids_distinct),
  )
]

same_lookups :
    (old next : List (Text × Group))
    → IsMap old
    → IsMap next
    → length next ≡ length old
    → ((jid : Text) (g : Group) → In (jid, g) next → lookup jid old ≡ some g)
    → (jid : Text) → lookup jid next ≡ lookup jid old
same_lookups old next vo vn e h jid = elim (Option-cases (lookup jid next)) [
  | inr (g, found) ↦ found ∙ sym (h jid g (In-of_lookup jid next found))
  | inl absent ↦ elim (Option-cases (lookup jid old)) [
    | inl gone ↦ absent ∙ sym gone
    | inr (g, kept) ↦
        let back =
          In-of_same_length (keys next) (keys old) vn.distinct vo.distinct
            (length-map _ next ∙ e ∙ sym (length-map _ old))
            (λ k i.
              let (v, f) = lookup_of_In-keys k next i in
              In-keys_of_lookup k old (h k v (In-of_lookup k next f)))
            jid (In-keys_of_lookup jid old kept) in
        let (v, f) = lookup_of_In-keys jid next back in absurd (cc (absent, f))
  ]
]

length-le_of_lookups :
    (m n : List (Text × Group))
    → IsMap m
    → ((jid : Text) → lookup jid m ≡ lookup jid n)
    → length m ≤ length n
length-le_of_lookups m n v h = omega (
  arith,
  length-le_of_In (keys m) (keys n) v.distinct
      (λ k i. let (g, f) = lookup_of_In-keys k m i in In-keys_of_lookup k n (sym (h k) ∙ f)),
  length-map (λ (kv : Text × Group). kv.0) m,
  length-map (λ (kv : Text × Group). kv.0) n,
)

same_length_of_lookups :
    (old next : List (Text × Group))
    → IsMap old
    → IsMap next
    → ((jid : Text) → lookup jid next ≡ lookup jid old)
    → length next ≡ length old
same_length_of_lookups old next vo vn h = omega (
  arith,
  length-le_of_lookups next old vn h,
  length-le_of_lookups old next vo (λ jid. sym (h jid)),
)

abbrev resized_diff : List (Text × Group) → List (Text × Group) → Diff
resized_diff old next = record { added = []; changed = not (length next == length old) }

-- The flag of `Reload` is right: it is down exactly when the two maps agree everywhere.
unchanged_iff :
    (old next : List (Text × Group))
    → IsMap old
    → IsMap next
    → ((compare_maps old (resized_diff old next) next).changed ≡ false)
      ↔ ((jid : Text) → lookup jid next ≡ lookup jid old)
unchanged_iff old next vo vn =
    let c = compare_maps-Compared old next (resized_diff old next) in
    (
      λ h.
          let (same_size, found) = c.silent.0 h in
          same_lookups old next vo vn (ground (arith, ==_iff (length next) (length old))) found,
      λ h.
          let same_size = same_length_of_lookups old next vo vn h in
          c.silent.1 (
            ground (arith, ==_iff (length next) (length old)),
            λ jid g i. sym (h jid) ∙ lookup_of_In jid g next vn.distinct i,
          ),
    )

added_iff :
    (old next : List (Text × Group)) (g : Group)
    → IsMap next
    → In g (compare_maps old (resized_diff old next) next).added
      ↔ ((lookup g.jid old ≡ none) × (lookup g.jid next ≡ some g))
added_iff old next g vn =
    let c = (compare_maps-Compared old next (resized_diff old next)).added g in
    (
      λ i. elim (c.0 i) [
        | inl n ↦ absurd n
        | inr (jid, j, absent) ↦
            let found = lookup_of_In jid g next vn.distinct j in
            let own = vn.own_jid jid g found in (simp own absent, simp own found)
      ],
      λ (absent, found). c.1 (inr (g.jid, In-of_lookup g.jid next found, absent)),
    )

-- A reload that succeeds leaves the channels alone where every chat has the group that it had, and
-- else offers each channel one change, whose groups are those of the chats that were not allowed
-- before and are now.
pub reload_notifies :
    (disk : Disk) (m : Manager) (gs : List Group) (t : ℤ)
    → IsMap m.groups
    → load disk ≡ ok (gs, t)
    → (((jid : Text) → group (reload disk m).1 jid ≡ group m jid)
        × ((reload disk m).1.subs ≡ m.subs))
      ⊎ ((¬ ((jid : Text) → group (reload disk m).1 jid ≡ group m jid))
          × (ch : Change) × ((reload disk m).1.subs ≡ map (offer ch) m.subs)
          × ((g : Group)
              → In g ch.added
                ↔ ((group m g.jid ≡ none) × (group (reload disk m).1 g.jid ≡ some g))))
unfolding replace group
reload_notifies disk m gs t v good =
    let next = index_groups [] gs in
    let vn : IsMap next = replace-IsMap gs t m in
    let d = compare_maps m.groups (resized_diff m.groups next) next in
    rw (reload_ok disk m good) (elim (Bool-cases d.changed) [
      | inl loud ↦ inr (
        λ h. cc (loud, (unchanged_iff m.groups next v vn).1 h),
        record { added = d.added },
        rw loud,
        λ g. added_iff m.groups next g vn,
      )
      | inr quiet ↦ inl ((unchanged_iff m.groups next v vn).0 quiet, rw quiet)
    ])
