-- ===== src/Writer/PathParts.antt =====
-- writer.go: `safePathPart`, which makes the names of directories and files out of what a chat
-- partner sends.
use wa_agent_pipeline.Base.{
  ℕ, Text, ◌≡◌, ◌≢◌, ◌⊎◌, inl, inr, refl, Bool, true, false, not, [], ◌∷◌, arith, All, Bool-cases,
  contains, ==_iff, nat_eq, if◌then◌else◌,
}
use wa_agent_pipeline.Texts.{text}
use wa_agent_pipeline.Writer.{
  is_safe, replace_unsafe, is_trimmed_char, trim_start, keep_end, trim_end, or_unknown,
  safe_path_part,
}

abbrev pub IsSafe : ℕ → Type 0
IsSafe c = is_safe c ≡ true

-- A name of safe characters that begins with neither '.' nor '_': it is not empty, "." or "..", it
-- is no hidden file, and no path separator is in it.
pub record IsPathPart (s : Text) : Type 0 where
  pub safe : All IsSafe s
  pub head : ℕ
  pub tail : Text
  pub parts : s ≡ head ∷ tail
  pub head_plain : (head ≢ b'.') × (head ≢ b'_')
  pub no_separator : (contains s b'/' ≡ false) × (contains s b'\\' ≡ false)

underscore-IsSafe : IsSafe b'_'
unfolding is_safe
underscore-IsSafe = refl

one_underscore-All :
    (in_run : Bool) (s : Text) → All IsSafe s → All IsSafe (if in_run then s else b'_' ∷ s)
one_underscore-All true s v = v
one_underscore-All false s v = (underscore-IsSafe, v)

replace_unsafe-All : (in_run : Bool) (s : Text) → All IsSafe (replace_unsafe in_run s)
unfolding replace_unsafe
replace_unsafe-All in_run [] = tt
replace_unsafe-All in_run (c ∷ s) =
    let rest = replace_unsafe-All (not (is_safe c)) s in
    elim (Bool-cases (is_safe c)) [
      | inl good ↦ rw good (good, rw good at rest)
      | inr bad ↦ rw bad (one_underscore-All in_run (replace_unsafe true s) (rw bad at rest))
    ]

trim_start-All : (s : Text) → All IsSafe s → All IsSafe (trim_start s)
unfolding trim_start
trim_start-All [] v = tt
trim_start-All (c ∷ s) v = elim (Bool-cases (is_trimmed_char c)) [
  | inl drop ↦ rw drop (trim_start-All s v.1)
  | inr keep ↦ rw keep v
]

keep_end-All : (c : ℕ) (s : Text) → IsSafe c → All IsSafe s → All IsSafe (keep_end c s)
keep_end-All c [] h v = elim (Bool-cases (is_trimmed_char c)) [
  | inl drop ↦ rw drop tt
  | inr keep ↦ rw keep (h, tt)
]
keep_end-All c (d ∷ s) h v = (h, v)

trim_end-All : (s : Text) → All IsSafe s → All IsSafe (trim_end s)
unfolding trim_end
trim_end-All [] v = tt
trim_end-All (c ∷ s) v = keep_end-All c (trim_end s) v.0 (trim_end-All s v.1)

-- Empty, or begins with a character that is not trimmed.
abbrev Begins : Text → Type 0
Begins s = (s ≡ []) ⊎ ((c : ℕ) × (rest : Text) × (s ≡ c ∷ rest) × (is_trimmed_char c ≡ false))

trim_start-Begins : (s : Text) → Begins (trim_start s)
unfolding trim_start
trim_start-Begins [] = inl refl
trim_start-Begins (c ∷ s) = elim (Bool-cases (is_trimmed_char c)) [
  | inl drop ↦ rw drop (trim_start-Begins s)
  | inr keep ↦ rw keep (inr (c, s, refl, keep))
]

keep_end-Begins : (c : ℕ) (s : Text) → is_trimmed_char c ≡ false → Begins (keep_end c s)
keep_end-Begins c [] keep = rw keep (inr (c, [], refl, keep))
keep_end-Begins c (d ∷ s) keep = inr (c, d ∷ s, refl, keep)

trim_end-Begins : (s : Text) → Begins s → Begins (trim_end s)
unfolding trim_end
trim_end-Begins s (inl e) = rw e (inl refl)
trim_end-Begins s (inr (c, rest, e, keep)) = rw e (keep_end-Begins c (trim_end rest) keep)

separator-free : (s : Text) → All IsSafe s → (contains s b'/' ≡ false) × (contains s b'\\' ≡ false)
unfolding contains is_safe
separator-free [] v = (refl, refl)
separator-free (c ∷ s) v =
    let later = separator-free s v.1 in
    (ground (arith, later, v, ==_iff c b'/'), ground (arith, later, v, ==_iff c b'\\'))

or_unknown-IsPathPart : (s : Text) → All IsSafe s → Begins s → IsPathPart (or_unknown s)
unfolding is_safe contains
or_unknown-IsPathPart [] v b = record {
  safe = (refl, (refl, (refl, (refl, (refl, (refl, (refl, tt)))))));
  head = b'u';
  tail = text "nknown";
  parts = refl;
  head_plain = (ground arith, ground arith);
  no_separator = (refl, refl);
}
or_unknown-IsPathPart (c ∷ s) v (inl e) = absurd (ground (arith, e))
or_unknown-IsPathPart (c ∷ s) v (inr (d, rest, e, keep)) = record {
  safe = v;
  head = d;
  tail = rest;
  parts = e;
  head_plain = (ground (arith, keep, ==_iff d b'.'), ground (arith, keep, ==_iff d b'_'));
  no_separator = separator-free (c ∷ s) v;
}

-- Whatever the text, `safePathPart` returns a name of safe characters that is not empty, begins with
-- neither '.' nor '_', and holds no path separator.
pub safe_path_part-IsPathPart : (v : Text) → IsPathPart (safe_path_part v)
unfolding safe_path_part
safe_path_part-IsPathPart v =
    let start = trim_start (replace_unsafe false v) in
    or_unknown-IsPathPart (trim_end start)
      (trim_end-All start (trim_start-All (replace_unsafe false v) (replace_unsafe-All false v)))
      (trim_end-Begins start (trim_start-Begins (replace_unsafe false v)))
