-- ===== src/Config/Manager/Maps.antt =====
-- config.go: the map of the manager, and what the loops of `Reload` find in it.
use wa_agent_pipeline.Base.{
  Text, ◌≡◌, ◌↔◌, ◌⊎◌, inl, inr, refl, sym, ap, ◌∙◌, false, Option, none, some, List, [], ◌∷◌,
  arith, Bool-cases, In, In-snoc, In-append, Distinct, contains, contains_iff, contains-false_iff,
  ==_iff, ==_self, text_eq, nat_eq, lookup, insert, lookup-insert, lookup-nil, keys,
  Distinct-keys-insert,
}
use wa_agent_pipeline.Base.Int.{ℤ}
use wa_agent_pipeline.Config.{Group, same_group}
use wa_agent_pipeline.Config.Equality.{same_group_iff}
use wa_agent_pipeline.Config.Load.{jids}
use wa_agent_pipeline.Config.Manager.{
  Manager, Diff, compare_entry, index_groups, compare_maps, replace,
}

-- The keys of the map are distinct, and each is its group's JID.
pub record IsMap (m : List (Text × Group)) : Type 0 where
  pub distinct : Distinct (keys m)
  pub own_jid : (jid : Text) (g : Group) → lookup jid m ≡ some g → g.jid ≡ jid

pub nil-IsMap : IsMap []
nil-IsMap = record { distinct = tt; own_jid = λ jid g h. absurd (nothing jid g h) }
  where
    nothing : (jid : Text) (g : Group) → lookup jid [] ≡ some g → ⊥
    nothing jid g h = cc (lookup-nil jid, h)

insert-IsMap : (g : Group) (m : List (Text × Group)) → IsMap m → IsMap (insert g.jid g m)
insert-IsMap g m v = record {
  distinct = Distinct-keys-insert g.jid g m v.distinct;
  own_jid =
      λ jid h e. ground (arith, lookup-insert g.jid jid g m, ==_iff g.jid jid, v.own_jid jid h);
}

index_groups-IsMap :
    (m : List (Text × Group)) (gs : List Group) → IsMap m → IsMap (index_groups m gs)
unfolding index_groups
index_groups-IsMap m [] v = v
index_groups-IsMap m (g ∷ gs) v = index_groups-IsMap (insert g.jid g m) gs (insert-IsMap g m v)

lookup-index_groups_absent :
    (jid : Text) (m : List (Text × Group)) (gs : List Group)
    → ¬ In jid (jids gs)
    → lookup jid (index_groups m gs) ≡ lookup jid m
unfolding index_groups
lookup-index_groups_absent jid m [] n = refl
lookup-index_groups_absent jid m (g ∷ gs) n =
    lookup-index_groups_absent jid (insert g.jid g m) gs (λ k. n (inr k))
    ∙ ground (arith, lookup-insert g.jid jid g m, ==_iff g.jid jid, λ (e : jid ≡ g.jid). n (inl e))

lookup-index_groups :
    (g : Group) (m : List (Text × Group)) (gs : List Group)
    → Distinct (jids gs)
    → In g gs
    → lookup g.jid (index_groups m gs) ≡ some g
unfolding index_groups
lookup-index_groups g m [] d i = absurd i
lookup-index_groups g m (h ∷ gs) d (inl e) = rw e (
    lookup-index_groups_absent h.jid (insert h.jid h m) gs d.0
    ∙ ground (arith, lookup-insert h.jid h.jid h m, ==_self h.jid))
lookup-index_groups g m (h ∷ gs) d (inr i) = lookup-index_groups g (insert h.jid h m) gs d.1 i

In-jids : (jid : Text) (gs : List Group) → In jid (jids gs) → (g : Group) × In g gs × (g.jid ≡ jid)
In-jids jid [] i = absurd i
In-jids jid (g ∷ gs) (inl e) = (g, inl refl, sym e)
In-jids jid (g ∷ gs) (inr i) = let (h, k, e) = In-jids jid gs i in (h, inr k, e)

In-jids_of_In : (g : Group) (gs : List Group) → In g gs → In g.jid (jids gs)
In-jids_of_In g [] i = i
In-jids_of_In g (h ∷ gs) (inl e) = inl (ap (λ (x : Group). x.jid) e)
In-jids_of_In g (h ∷ gs) (inr i) = inr (In-jids_of_In g gs i)

index_groups_sound :
    (jid : Text) (g : Group) (gs : List Group)
    → Distinct (jids gs)
    → lookup jid (index_groups [] gs) ≡ some g
    → In g gs × (g.jid ≡ jid)
unfolding lookup
index_groups_sound jid g gs d h = elim (Bool-cases (contains (jids gs) jid)) [
  | inl listed ↦
      let (k, i, e) = In-jids jid gs ((contains_iff (jids gs) jid).0 listed) in
      let same : k ≡ g =
        cc (
          lookup-index_groups k [] gs d i,
          ap (λ (t : Text). lookup t (index_groups [] gs)) e,
          h,
        ) in
      rw (sym same) (i, e)
  | inr absent ↦
      absurd
        (cc (h, lookup-index_groups_absent jid [] gs ((contains-false_iff (jids gs) jid).0 absent)))
]

pub index_groups_iff :
    (jid : Text) (g : Group) (gs : List Group)
    → Distinct (jids gs)
    → (lookup jid (index_groups [] gs) ≡ some g) ↔ (In g gs × (g.jid ≡ jid))
unfolding lookup
index_groups_iff jid g gs d =
    (index_groups_sound jid g gs d, λ h. rw (← h.1) (lookup-index_groups g [] gs d h.0))

-- What one loop over the new map finds.
pub record Compared (old : List (Text × Group)) (next : List (Text × Group)) (d d' : Diff)
    : Type 0 where
  pub silent : (d'.changed ≡ false) ↔ (
      (d.changed ≡ false) × ((jid : Text) (g : Group) → In (jid, g) next → lookup jid old ≡ some g))
  pub added :
      (g : Group)
      → In g d'.added ↔ (In g d.added ⊎ ((jid : Text) × In (jid, g) next × (lookup jid old ≡ none)))

compare_entry_silent :
    (o : Option Group) (g : Group) (d : Diff)
    → ((compare_entry o g d).changed ≡ false) ↔ ((d.changed ≡ false) × (o ≡ some g))
compare_entry_silent none g d = (λ h. cc, λ h. cc (h.1))
compare_entry_silent (some old) g d = ground (arith, same_group_iff old g)

compare_entry_added :
    (o : Option Group) (g h : Group) (d : Diff)
    → In h (compare_entry o g d).added ↔ (In h d.added ⊎ ((h ≡ g) × (o ≡ none)))
compare_entry_added none g h d = (
  λ i. elim (In-snoc h g d.added i) [ inl k ↦ inl k | inr e ↦ inr (e, refl) ],
  λ i. (In-append h d.added (g ∷ [])).1 (elim i [ inl k ↦ inl k | inr (e, _) ↦ inr (inl e) ]),
)
compare_entry_added (some old) g h d = elim (Bool-cases (same_group old g)) [
  | inl same ↦ rw same (inl, λ i. elim i [ inl k ↦ k | inr (e, n) ↦ absurd (cc (n)) ])
  | inr other ↦ rw other (inl, λ i. elim i [ inl k ↦ k | inr (e, n) ↦ absurd (cc (n)) ])
]

pub compare_maps-Compared :
    (old next : List (Text × Group)) (d : Diff) → Compared old next d (compare_maps old d next)
unfolding compare_maps
compare_maps-Compared old [] d = record {
  silent = (λ h. (h, λ jid g i. absurd i), λ h. h.0);
  added = λ g. (inl, λ h. elim h [ inl i ↦ i | inr (jid, n, e) ↦ absurd n ]);
}
compare_maps-Compared old ((jid, g) ∷ next) d =
    let o = lookup jid old in
    let rest = compare_maps-Compared old next (compare_entry o g d) in
    let quiet = compare_entry_silent o g d in
    record {
      silent = (
        λ h.
            let (q, later) = rest.silent.0 h in
            let (before, here) = quiet.0 q in
            (before, λ k v i. elim i [ inl e ↦ cc | inr j ↦ later k v j ]),
        λ (before, all).
            rest.silent.1 (quiet.1 (before, all jid g (inl refl)), λ k v i. all k v (inr i)),
      );
      added = λ h. (
        λ i. elim ((rest.added h).0 i) [
          | inl k ↦ elim ((compare_entry_added o g h d).0 k) [
            | inl old_one ↦ inl old_one
            | inr (e, n) ↦ inr (jid, inl (ap (λ x. (jid, x)) e), n)
          ]
          | inr (k, j, n) ↦ inr (k, inr j, n)
        ],
        λ i. (rest.added h).1 (elim i [
          | inl k ↦ inl ((compare_entry_added o g h d).1 (inl k))
          | inr (k, inl e, n) ↦ inl ((compare_entry_added o g h d).1 (inr (cc, cc)))
          | inr (k, inr j, n) ↦ inr (k, j, n)
        ]),
      );
    }

-- The new map has distinct keys, each its group's JID, whatever the old one was.
pub replace-IsMap : (gs : List Group) (t : ℤ) (m : Manager) → IsMap (replace gs t m).groups
unfolding replace
replace-IsMap gs t m = index_groups-IsMap [] gs nil-IsMap
