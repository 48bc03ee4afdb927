-- ===== src/Writer/Schema/Names.antt =====
-- writer.go: lists of columns by their names.
use wa_agent_pipeline.Base.{
  Text, ◌≡◌, inl, inr, refl, ap, true, ◌||◌, List, [], ◌∷◌, ◌++◌, arith, contains, ◌==◌, ==_iff,
  text_eq, Bool-cases,
}
use mathlib.Core.Path.{subst}
use wa_agent_pipeline.Writer.Schema.{Column, names, has_all}

pub has_all_mono :
    (a b ns : List Text)
    → ((n : Text) → contains a n ≡ true → contains b n ≡ true)
    → has_all a ns ≡ true
    → has_all b ns ≡ true
has_all_mono a b [] f h = refl
has_all_mono a b (n ∷ ns) f h =
    let later = has_all_mono a b ns f in let here = f n in ground (arith, h, later, here)

pub has_all-at :
    (have ns : List Text) (n : Text)
    → has_all have ns ≡ true
    → contains ns n ≡ true
    → contains have n ≡ true
unfolding contains
has_all-at have [] n h m = absurd (ground (arith, m))
has_all-at have (k ∷ ns) n h m =
    let later = has_all-at have ns n in
    elim (Bool-cases (k == n)) [
      | inl e ↦ subst (λ j. contains have j ≡ true) ((==_iff k n).0 e) (ground (arith, h))
      | inr e ↦ ground (arith, h, later, m, e)
    ]

contains-append :
    (xs ys : List Text) (n : Text) → contains (xs ++ ys) n ≡ (contains xs n || contains ys n)
unfolding contains
contains-append [] ys n = refl
contains-append (x ∷ xs) ys n = ground (arith, contains-append xs ys n)

-- Columns that are among those of two lists.
pub has_all-cover :
    (have a b ns : List Text)
    → has_all have a ≡ true
    → has_all have b ≡ true
    → has_all (a ++ b) ns ≡ true
    → has_all have ns ≡ true
has_all-cover have a b ns ha hb h =
    has_all_mono (a ++ b) have ns
      (λ n m.
        ground (arith, contains-append a b n, m, has_all-at have a n ha, has_all-at have b n hb))
      h

names-snoc :
    (cols : List Column) (col : Column) → names (cols ++ col ∷ []) ≡ names cols ++ col.name ∷ []
names-snoc [] col = refl
names-snoc (c ∷ cols) col = ap (λ ns. c.name ∷ ns) (names-snoc cols col)

pub contains_added :
    (cols : List Column) (col : Column) (n : Text)
    → contains (names (cols ++ col ∷ [])) n ≡ (contains (names cols) n || (col.name == n))
unfolding contains
contains_added cols col n =
    rw (names-snoc cols col) (ground (arith, contains-append (names cols) (col.name ∷ []) n))
