-- ===== src/Files/Atomic.antt =====
-- writer.go and unseen.go: what a reader of the replaced file can see.
use wa_agent_pipeline.Base.{
  ℕ, Text, ◌≡◌, ◌≢◌, inl, inr, refl, ap, ◌∙◌, Option, none, some, List, [], ◌∷◌, arith,
  Option-cases, Result-cases, Result, ok, err, lookup, lookup-insert, ◌==◌, ==_iff, text_eq,
  if◌then◌else◌, take,
}
use wa_agent_pipeline.Files.{
  Files, FileAction, ◌>>◌, erase, step_over, open_truncate, write_all, rename, remove,
  fill_and_rename, clean_up, atomic_write_text,
}

abbrev pub at : Text → Files → Option (List ℕ)
at path fs = lookup path fs.content

lookup-erase :
    (key other : Text) (c : List (Text × List ℕ))
    → lookup other (erase key c) ≡ (if key == other then none else lookup other c)
unfolding lookup erase
lookup-erase key other [] = ground arith
lookup-erase key other ((j, w) ∷ c) =
    let later = lookup-erase key other c in
    ground (arith, later, ==_iff key other, ==_iff j key, ==_iff j other)

-- Every file but `tmp` is as it was.
abbrev pub Same : Text → Files → Files → Type 0
Same tmp fs fs' = (j : Text) → tmp ≢ j → at j fs' ≡ at j fs

-- A replacement is done, or it fails and only the temporary file may have changed.
pub data Replaced (tmp path : Text) (bytes : List ℕ) (fs : Files) (out : Result Text Unit × Files)
    : Type 0 where
  done :
      out.0 ≡ ok tt
      → at path out.1 ≡ some bytes
      → ((j : Text) → tmp ≢ j → path ≢ j → at j out.1 ≡ at j fs)
      → Replaced tmp path bytes fs out
  undone : (e : Text) → out.0 ≡ err e → Same tmp fs out.1 → Replaced tmp path bytes fs out

pub bind_ok :
    (m : FileAction Unit) (k : FileAction Unit) (fs : Files) {a : Unit}
    → (m fs).0 ≡ ok a
    → (m >> k) fs ≡ k (m fs).1
bind_ok m k fs h = ground arith

pub bind_err :
    (m : FileAction Unit) (k : FileAction Unit) (fs : Files) {e : Text}
    → (m fs).0 ≡ err e
    → (m >> k) fs ≡ (m fs)
bind_err m k fs h = ground arith

module _ (tmp path : Text) (bytes : List ℕ) where
  pub rename-Replaced :
      (fs : Files)
      → lookup tmp fs.content ≡ some bytes
      → Replaced tmp path bytes fs (rename tmp path fs)
  unfolding rename
  rename-Replaced fs full = elim (Option-cases (fs.fault fs.calls)) [
    | inr (f, bad) ↦ undone f.error (ground (arith, bad)) (λ j n. ground (arith, bad))
    | inl fine ↦
        done (ground (arith, fine))
          (ground (
            arith,
            fine,
            full,
            lookup-insert path path bytes (erase tmp fs.content),
            ==_iff path path,
          ))
          (λ j n m. ground (
            arith,
            fine,
            full,
            lookup-insert path j bytes (erase tmp fs.content),
            lookup-erase tmp j fs.content,
            ==_iff path j,
            ==_iff tmp j,
          ))
  ]

  -- A call that changes at most `tmp`, and then an action that is a replacement from there on.
  pub after_call :
      (m : FileAction Unit) (k : FileAction Unit) (fs : Files)
      → Same tmp fs (m fs).1
      → ((m fs).0 ≡ ok tt → Replaced tmp path bytes (m fs).1 (k (m fs).1))
      → Replaced tmp path bytes fs ((m >> k) fs)
  after_call m k fs same next = elim (Result-cases (m fs).0) [
    | inl (e, stop) ↦ rw (bind_err m k fs stop) (undone e stop same)
    | inr (a, go) ↦ rw (bind_ok m k fs go) (elim (next go) [
      | done r full other ↦ done r full (λ j n o. other j n o ∙ same j n)
      | undone e r other ↦ undone e r (λ j n. other j n ∙ same j n)
    ])
  ]

  pub step_over-content : (fs : Files) → (step_over fs).1.content ≡ fs.content
  unfolding step_over
  step_over-content fs = ground arith

  pub write_all-Same : (fs : Files) → Same tmp fs (write_all tmp bytes fs).1
  unfolding write_all
  write_all-Same fs j n = elim (Option-cases (fs.fault fs.calls)) [
    | inr (f, bad) ↦
        ground (arith, bad, lookup-insert tmp j (take f.written bytes) fs.content, ==_iff tmp j)
    | inl fine ↦ ground (arith, fine, lookup-insert tmp j bytes fs.content, ==_iff tmp j)
  ]

  pub write_all-full :
      (fs : Files)
      → (write_all tmp bytes fs).0 ≡ ok tt
      → lookup tmp (write_all tmp bytes fs).1.content ≡ some bytes
  unfolding write_all
  write_all-full fs h = ground (arith, lookup-insert tmp tmp bytes fs.content, ==_iff tmp tmp)

  pub open_truncate-Same : (fs : Files) → Same tmp fs (open_truncate tmp fs).1
  unfolding open_truncate
  open_truncate-Same fs j n = ground (arith, lookup-insert tmp j [] fs.content, ==_iff tmp j)

  remove-Same : (fs : Files) → Same tmp fs (remove tmp fs).1
  unfolding remove
  remove-Same fs j n = ground (arith, lookup-erase tmp j fs.content, ==_iff tmp j)

  pub step_over-Same : (fs : Files) → Same tmp fs (step_over fs).1
  step_over-Same fs j n = ap (lookup j) (step_over-content fs)

  fill_and_rename-Replaced :
      (fs : Files) → Replaced tmp path bytes fs (fill_and_rename tmp path bytes fs)
  unfolding fill_and_rename
  fill_and_rename-Replaced fs =
      let fs₁ = (write_all tmp bytes fs).1 in
      let fs₂ = (step_over fs₁).1 in
      let fs₃ = (step_over fs₂).1 in
      after_call (write_all tmp bytes) (step_over >> (step_over >> rename tmp path)) fs
        (write_all-Same fs)
        (λ written.
          after_call step_over (step_over >> rename tmp path) fs₁ (step_over-Same fs₁) (λ flushed.
            after_call step_over (rename tmp path) fs₂ (step_over-Same fs₂) (λ closed.
              rename-Replaced fs₃ (
                ap (lookup tmp) (step_over-content fs₂ ∙ step_over-content fs₁)
                ∙ write_all-full fs written))))

  clean_up-Replaced :
      (fs : Files) (out : Result Text Unit × Files)
      → Replaced tmp path bytes fs out
      → Replaced tmp path bytes fs (clean_up tmp out)
  clean_up-Replaced fs (ok a, fs') v = v
  clean_up-Replaced fs (err e, fs') (done r full other) = absurd (ground (arith, r))
  clean_up-Replaced fs (err e, fs') (undone e' r other) =
      undone e refl (λ j n. remove-Same fs' j n ∙ other j n)

-- `atomicWriteText`, on any file system: it succeeds, the file then has the whole new content and
-- every other file but the temporary one is as it was; or it fails, and every file but the
-- temporary one, the file itself too, is as it was.
pub atomic_write_text-Replaced :
    (tmp path : Text) (content : Text) (fs : Files)
    → Replaced tmp path content fs (atomic_write_text tmp path content fs)
unfolding atomic_write_text
atomic_write_text-Replaced tmp path content fs =
    let fs₁ = (step_over fs).1 in
    let fs₂ = (open_truncate tmp fs₁).1 in
    let fill : FileAction Unit = λ fs. clean_up tmp (fill_and_rename tmp path content fs) in
    after_call tmp path content step_over (open_truncate tmp >> fill) fs
      (step_over-Same tmp path content fs)
      (λ made.
        after_call tmp path content (open_truncate tmp) fill fs₁
          (open_truncate-Same tmp path content fs₁)
          (λ opened.
            clean_up-Replaced tmp path content fs₂ (fill_and_rename tmp path content fs₂)
              (fill_and_rename-Replaced tmp path content fs₂)))
