-- ===== src/Unseen/Grouping.antt =====
-- unseen.go: `writeOutput` prints every message once, under its chat, on a line of its own.
use wa_agent_pipeline.Base.{
  ℕ, Text, ◌≡◌, ◌≢◌, ◌↔◌, inl, inr, refl, ap, sym, ◌∙◌, false, ◌||◌, Option, none, some, List, [],
  ◌∷◌, ◌++◌, select, arith, Bool-cases, lookup, lookup-insert, lookup-nil, contains, In, In-append,
  Distinct, Distinct-snoc, ==_iff, ◌==◌, text_eq, nat_eq, if◌then◌else◌,
}
use mathlib.Core.List.{append-nil, append_assoc}
use wa_agent_pipeline.Texts.{text}
use wa_agent_pipeline.Writer.{MessageRow}
use wa_agent_pipeline.Unseen.Display.{
  Grouping, grouped, group_messages, or_nil, replace_all, one_line,
}

abbrev label_of : Text × MessageRow → Text
label_of msg = msg.1.chat_label

-- The messages of one chat, in order.
abbrev pub of_chat : Text → List (Text × MessageRow) → List (Text × MessageRow)
of_chat label = select λ m. label_of m == label

abbrev joined :
    Option (List (Text × MessageRow)) → List (Text × MessageRow) → Option (List (Text × MessageRow))
joined none [] = none
joined none (m ∷ ms) = some (m ∷ ms)
joined (some old) ms = some (old ++ ms)

-- The chats of `order` are those that have messages.
record IsGrouping (g : Grouping) : Type 0 where
  pub distinct : Distinct g.order
  pub listed : (label : Text) → In label g.order ↔ (lookup label g.by_group ≢ none)

grouped-lookup :
    (old : Option (List (Text × MessageRow))) (msg : Text × MessageRow) (g : Grouping)
    (label : Text)
    → lookup (label_of msg) g.by_group ≡ old
    → lookup label (grouped old msg g).by_group
      ≡ (if label_of msg == label then joined old (msg ∷ []) else lookup label g.by_group)
grouped-lookup none msg g label h = lookup-insert (label_of msg) label (msg ∷ []) g.by_group
grouped-lookup (some old) msg g label h =
    lookup-insert (label_of msg) label (old ++ msg ∷ []) g.by_group

joined-nil : (old : Option (List (Text × MessageRow))) → joined old [] ≡ old
joined-nil none = refl
joined-nil (some old) = ap some (append-nil old)

joined-joined :
    (old : Option (List (Text × MessageRow))) (m : Text × MessageRow)
    (ms : List (Text × MessageRow))
    → joined (joined old (m ∷ [])) ms ≡ joined old (m ∷ ms)
joined-joined none m ms = refl
joined-joined (some old) m ms = ap some (append_assoc old (m ∷ []) ms)

group_messages-lookup :
    (g : Grouping) (msgs : List (Text × MessageRow)) (label : Text)
    → lookup label (group_messages g msgs).by_group
      ≡ joined (lookup label g.by_group) (of_chat label msgs)
unfolding group_messages select
group_messages-lookup g [] label = sym (joined-nil (lookup label g.by_group))
group_messages-lookup g (m ∷ ms) label =
    let old = lookup (label_of m) g.by_group in
    let later = group_messages-lookup (grouped old m g) ms label in
    let here = grouped-lookup old m g label refl in
    elim (Bool-cases (label_of m == label)) [
      | inl hit ↦
          let same : old ≡ lookup label g.by_group =
            ap (λ l. lookup l g.by_group) ((==_iff (label_of m) label).0 hit) in
          cc (later, here, hit, same, joined-joined (lookup label g.by_group) m (of_chat label ms))
      | inr miss ↦ cc (later, here, miss)
    ]

grouped-IsGrouping :
    (old : Option (List (Text × MessageRow))) (msg : Text × MessageRow) (g : Grouping)
    → lookup (label_of msg) g.by_group ≡ old
    → IsGrouping g
    → IsGrouping (grouped old msg g)
grouped-IsGrouping none msg g h v = record {
  distinct = Distinct-snoc (label_of msg) g.order v.distinct (λ m. (v.listed (label_of msg)).0 m h);
  listed = λ label.
      let here = grouped-lookup none msg g label h in
      let (split, join) = In-append label g.order (label_of msg ∷ []) in
      let (to, from) = v.listed label in
      elim (Bool-cases (label_of msg == label)) [
        | inl hit ↦ (
          λ m. ground (arith, here, hit),
          λ n. join (inr (inl (sym ((==_iff (label_of msg) label).0 hit)))),
        )
        | inr miss ↦ (
          λ m. elim (split m) [
            | inl l ↦ let old = to l in ground (arith, here, miss, old)
            | inr (inl e) ↦ absurd (ground (arith, miss, e, ==_iff (label_of msg) label))
            | inr (inr n) ↦ absurd n
          ],
          λ n. join (inl (from (ground (arith, here, miss, n)))),
        )
      ];
}
grouped-IsGrouping (some old) msg g h v = record {
  distinct = v.distinct;
  listed = λ label.
      let here = grouped-lookup (some old) msg g label h in
      let (to, from) = v.listed label in
      elim (Bool-cases (label_of msg == label)) [
        | inl hit ↦
            let same = (==_iff (label_of msg) label).0 hit in
            let there : lookup label g.by_group ≡ some old =
              ap (λ l. lookup l g.by_group) (sym same) ∙ h in
            (λ m. ground (arith, here, hit), λ n. from (ground (arith, there)))
        | inr miss ↦ (
          λ m. let old = to m in ground (arith, here, miss, old),
          λ n. from (ground (arith, here, miss, n)),
        )
      ];
}

group_messages-IsGrouping :
    (g : Grouping) (msgs : List (Text × MessageRow))
    → IsGrouping g
    → IsGrouping (group_messages g msgs)
unfolding group_messages
group_messages-IsGrouping g [] v = v
group_messages-IsGrouping g (m ∷ ms) v =
    let old = lookup (label_of m) g.by_group in
    group_messages-IsGrouping (grouped old m g) ms (grouped-IsGrouping old m g refl v)

-- The chat labels of the digest stand once each, they are those of its messages, and under a label
-- stand exactly the messages that have it, in order.
pub group_messages_lem :
    (msgs : List (Text × MessageRow))
    → let g = group_messages (record { order = []; by_group = [] }) msgs in
      Distinct g.order
      × ((label : Text) → In label g.order ↔ (of_chat label msgs ≢ []))
      × ((label : Text) → or_nil (lookup label g.by_group) ≡ of_chat label msgs)
group_messages_lem msgs =
    let start : Grouping = record { order = []; by_group = [] } in
    let v = group_messages-IsGrouping start msgs (record {
      distinct = tt;
      listed = λ label. (λ m. absurd m, λ n. absurd (n (lookup-nil label)));
    }) in
    let found : (label : Text)
        → lookup label (group_messages start msgs).by_group ≡ joined none (of_chat label msgs) =
      λ label.
        group_messages-lookup start msgs label
        ∙ ap (λ o. joined o (of_chat label msgs)) (lookup-nil label) in
    (
      v.distinct,
      λ label.
          let (to, from) = v.listed label in
          (
            λ m e. to m (found label ∙ ap (joined none) e),
            λ n. from (λ e. n (empty_of (of_chat label msgs) (sym (found label) ∙ e))),
          ),
      λ label. ap or_nil (found label) ∙ or_nil-joined (of_chat label msgs),
    )
  where
    empty_of : (ms : List (Text × MessageRow)) → joined none ms ≡ none → ms ≡ []
    empty_of [] e = refl
    empty_of (m ∷ ms) e = cc

    or_nil-joined : (ms : List (Text × MessageRow)) → or_nil (joined none ms) ≡ ms
    or_nil-joined [] = refl
    or_nil-joined (m ∷ ms) = refl

contains-append : (xs ys : Text) (c : ℕ) → contains (xs ++ ys) c ≡ (contains xs c || contains ys c)
unfolding contains
contains-append [] ys c = refl
contains-append (x ∷ xs) ys c = ground (arith, contains-append xs ys c)

replace_all-gone :
    (old : ℕ) (new s : Text)
    → contains new old ≡ false
    → contains (replace_all old new s) old ≡ false
unfolding replace_all contains
replace_all-gone old new [] h = refl
replace_all-gone old new (c ∷ s) h =
    let rest = replace_all-gone old new s h in
    ground (arith, h, rest, contains-append new (replace_all old new s) old)

replace_all-without :
    (old c : ℕ) (new s : Text)
    → contains new c ≡ false
    → contains s c ≡ false
    → contains (replace_all old new s) c ≡ false
unfolding replace_all contains
replace_all-without old c new [] h k = refl
replace_all-without old c new (d ∷ s) h k =
    let rest = replace_all-without old c new s h (ground (arith, k)) in
    ground (arith, h, k, rest, contains-append new (replace_all old new s) c)

-- A display is printed without a line break: it holds no line feed and no carriage return.
pub one_line_lem :
    (display : Text)
    → (contains (one_line display) b'\n' ≡ false) × (contains (one_line display) b'\r' ≡ false)
unfolding one_line contains
one_line_lem display =
    let inner = replace_all b'\n' (text " / ") display in
    (
      replace_all-without b'\r' b'\n' (text " ") inner refl
          (replace_all-gone b'\n' (text " / ") display refl),
      replace_all-gone b'\r' (text " ") inner refl,
    )
