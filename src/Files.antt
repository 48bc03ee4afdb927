-- ===== src/Files.antt =====
-- The part of package `os` that the daemon writes files with. A file system is a map from paths to
-- bytes; whether the n-th call fails is the environment's choice, `fault n`, with the error and the
-- number of bytes that a failing write has written. Directories are not modelled.
pub mod Atomic
use wa_agent_pipeline.Base.{
  ℕ, suc, Text, Bool, true, false, Option, none, some, List, [], ◌∷◌, ◌++◌, Result, ok, err, ◌==◌,
  text_eq, take, lookup, insert, if◌then◌else◌,
}

pub record Fault : Type 0 where
  pub error : Text
  pub written : ℕ

pub record Files : Type 0 where
  pub content : List (Text × List ℕ)
  pub calls : ℕ
  pub fault : ℕ → Option Fault

abbrev pub FileAction : Type 0 → Type 0
FileAction A = Files → Result Text A × Files

abbrev pub pure : {A : Type 0} → A → FileAction A
pure a fs = (ok a, fs)

infixl 5 ◌>>=◌ ◌>>◌
abbrev pub ◌>>=◌ : {A B : Type 0} → FileAction A → (A → FileAction B) → FileAction B
◌>>=◌ m f fs = let (r, fs') = m fs in elim r [ err e ↦ (err e, fs') | ok a ↦ f a fs' ]

abbrev pub ◌>>◌ : {A B : Type 0} → FileAction A → FileAction B → FileAction B
m >> k = m >>= λ _. k

unfoldable pub erase : Text → List (Text × List ℕ) → List (Text × List ℕ)
erase path [] = []
erase path ((p, b) ∷ rest) = let kept = erase path rest in if p == path then kept else (p, b) ∷ kept

-- A call that the environment lets through does `change`, and one that it does not, `partial`.
abbrev file_call :
    (ℕ → List (Text × List ℕ) → List (Text × List ℕ))
    → (List (Text × List ℕ) → List (Text × List ℕ))
    → FileAction Unit
file_call partial change fs = elim (fs.fault fs.calls) [
  | some f ↦
      (err f.error, record fs { content = partial f.written fs.content; calls = suc fs.calls })
  | none ↦ (ok tt, record fs { content = change fs.content; calls = suc fs.calls })
]

-- os.MkdirAll, (*os.File).Sync and (*os.File).Close leave the bytes as they are.
unfoldable pub step_over : FileAction Unit
step_over = file_call (λ _ c. c) (λ c. c)

-- os.OpenFile(path, O_CREATE|O_TRUNC|O_WRONLY, 0600)
unfoldable pub open_truncate : Text → FileAction Unit
open_truncate path = file_call (λ _ c. c) (insert path [])

-- (*os.File).Write to the file that was opened at `path`
unfoldable pub write_all : Text → List ℕ → FileAction Unit
write_all path bytes = file_call (λ n. insert path (take n bytes)) (insert path bytes)

abbrev move : Text → Text → Option (List ℕ) → List (Text × List ℕ) → List (Text × List ℕ)
move from to none c = c
move from to (some bytes) c = insert to bytes (erase from c)

-- os.Rename(from, to)
unfoldable pub rename : Text → Text → FileAction Unit
rename from to = file_call (λ _ c. c) (λ c. move from to (lookup from c) c)

-- os.Remove(path)
unfoldable pub remove : Text → FileAction Unit
remove path = file_call (λ _ c. c) (erase path)

-- What os.ReadFile answers.
pub data ReadResult : Type 0 where
  absent : ReadResult
  unreadable : Text → ReadResult
  bytes_of : List ℕ → ReadResult

abbrev found : Option (List ℕ) → ReadResult
found none = absent
found (some bytes) = bytes_of bytes

-- os.ReadFile(path)
unfoldable pub read_file : Text → Files → ReadResult × Files
read_file path fs =
    let fs' = record fs { calls = suc fs.calls } in
    elim (fs.fault fs.calls) [
      | some f ↦ (unreadable f.error, fs')
      | none ↦ (found (lookup path fs.content), fs')
    ]

-- The file that was opened at `tmp` is written, flushed and closed, and takes the name `path`.
unfoldable pub fill_and_rename : Text → Text → List ℕ → FileAction Unit
unfolding step_over write_all rename
fill_and_rename tmp path bytes = do write_all tmp bytes; step_over; step_over; rename tmp path

-- The file part of `writeMedia`: the directory is made, and then a temporary file in it is filled
-- and renamed. The flush of the directory at the end has no result that the program looks at.
unfoldable pub replace_file : Text → Text → List ℕ → FileAction Unit
unfolding step_over open_truncate fill_and_rename
replace_file tmp path bytes = do step_over; open_truncate tmp; fill_and_rename tmp path bytes

-- The deferred function of `atomicWriteText` removes the temporary file on an error.
abbrev clean_up : Text → Result Text Unit × Files → Result Text Unit × Files
clean_up tmp (ok a, fs) = (ok a, fs)
clean_up tmp (err e, fs) = (err e, (remove tmp fs).1)

-- `atomicWriteText`; `tmp` is a name in the file's directory.
unfoldable pub atomic_write_text : Text → Text → Text → FileAction Unit
unfolding step_over open_truncate fill_and_rename remove
atomic_write_text tmp path content = do
  step_over
  open_truncate tmp
  λ fs. clean_up tmp (fill_and_rename tmp path content fs)
