-- ===== src/Texts/Decimal.antt =====
-- Decimal numerals: `fmt.Sprint` and `strconv.FormatInt(v, 10)`, and `strconv.ParseInt(s, 10, 64)`.
use wa_agent_pipeline.Base.{
  ℕ, zero, suc, ◌+◌, ◌-◌, ◌*◌, ◌/◌, ◌%◌, ◌^◌, ◌≤◌, ◌<◌, Text, ◌≡◌, ◌∙◌, refl, Option, none, some,
  [], ◌∷◌, ◌++◌, All, All-append, false, arith, Bool-cases, inl, inr, ltb, ◌==◌, ==_iff, nat_eq,
  if◌then◌else◌,
}
use wa_agent_pipeline.Base.Int.{ℤ, pos, negsuc, IsInt64}
use wa_agent_pipeline.Texts.{is_digit, is_space, trim_space}
use wa_agent_pipeline.Texts.Trim.{trim_space_id}

-- The digits of `n`, of which there are fewer than the fuel.
digits : ℕ → ℕ → Text
digits zero n = []
digits (suc fuel) n =
    let front = digits fuel (n / 10) in
    if n / 10 == 0 then (b'0' + n % 10) ∷ [] else front ++ (b'0' + n % 10) ∷ []

unfoldable pub print_int : ℤ → Text
unfolding digits
print_int (pos n) = digits (suc n) n
print_int (negsuc n) = b'-' ∷ digits (suc (suc n)) (suc n)

abbrev shift_in : Option ℕ → ℕ → Option ℕ
shift_in none c = none
shift_in (some v) c = if is_digit c then some (v * 10 + (c - b'0')) else none

read_digits : Option ℕ → Text → Option ℕ
read_digits acc [] = acc
read_digits acc (c ∷ s) = read_digits (shift_in acc c) s

abbrev in_range : ℤ → Option ℤ
in_range (pos n) = if ltb n (2 ^ 63) then some (pos n) else none
in_range (negsuc n) = if ltb n (2 ^ 63) then some (negsuc n) else none

abbrev negated : ℕ → ℤ
negated zero = pos 0
negated (suc n) = negsuc n

abbrev signed : (ℕ → ℤ) → Option ℕ → Option ℤ
signed f none = none
signed f (some n) = in_range (f n)

abbrev unsigned : Text → Option ℕ
unsigned [] = none
unsigned (c ∷ s) = read_digits (some 0) (c ∷ s)

-- `none` is any error: no digits, another character, or a value that an int64 cannot hold.
unfoldable pub parse_int : Text → Option ℤ
unfolding read_digits is_digit
parse_int [] = none
parse_int (c ∷ s) =
    if c == b'-'
    then signed negated (unsigned s)
    else if c == b'+'
    then signed pos (unsigned s)
    else signed pos (unsigned (c ∷ s))

read_digits-snoc :
    (acc : Option ℕ) (s : Text) (c : ℕ)
    → read_digits acc (s ++ c ∷ []) ≡ shift_in (read_digits acc s) c
unfolding read_digits
read_digits-snoc acc [] c = refl
read_digits-snoc acc (d ∷ s) c = read_digits-snoc (shift_in acc d) s c

last_digit : (n : ℕ) → shift_in (some (n / 10)) (b'0' + n % 10) ≡ some n
unfolding is_digit
last_digit n = ground arith

read-digits : (fuel n : ℕ) → n < fuel → read_digits (some 0) (digits fuel n) ≡ some n
unfolding digits
read-digits zero n h = absurd (omega arith)
read-digits (suc fuel) n h = elim (Bool-cases (n / 10 == 0)) [
  | inl last ↦
      let e : n / 10 ≡ 0 = (==_iff (n / 10) 0).0 last in
      rw last (unfold read_digits in rw e at (last_digit n))
  | inr more ↦ rw more (
      read_digits-snoc (some 0) (digits fuel (n / 10)) (b'0' + n % 10)
      ∙ rw (read-digits fuel (n / 10) (ground (arith, ==_iff (n / 10) 0))) (last_digit n))
]

-- A numeral begins with a digit.
abbrev BeginsWithDigit : Text → Type 0
BeginsWithDigit s = (c : ℕ) × (rest : Text) × (s ≡ c ∷ rest) × (b'0' ≤ c)

snoc-BeginsWithDigit : (s : Text) (d : ℕ) → BeginsWithDigit s → BeginsWithDigit (s ++ d ∷ [])
snoc-BeginsWithDigit s d (c, rest, e, k) = (c, rest ++ d ∷ [], rw e, k)

digits-BeginsWithDigit : (fuel n : ℕ) → n < fuel → BeginsWithDigit (digits fuel n)
unfolding digits
digits-BeginsWithDigit zero n h = absurd (omega arith)
digits-BeginsWithDigit (suc fuel) n h = elim (Bool-cases (n / 10 == 0)) [
  | inl last ↦ rw last (b'0' + n % 10, [], refl, omega arith)
  | inr more ↦ rw more (
      snoc-BeginsWithDigit _ _
        (digits-BeginsWithDigit fuel (n / 10) (ground (arith, ==_iff (n / 10) 0))))
]

unsigned-digits : (fuel n : ℕ) → n < fuel → unsigned (digits fuel n) ≡ some n
unsigned-digits fuel n h =
    let (c, rest, e, k) = digits-BeginsWithDigit fuel n h in rw e (rw (← e) (read-digits fuel n h))

-- Every int64 is read back from its numeral.
pub parse-print_int : (v : ℤ) → IsInt64 v → parse_int (print_int v) ≡ some v
unfolding parse_int print_int
parse-print_int (pos n) h =
    let (c, rest, e, k) = digits-BeginsWithDigit (suc n) n (omega arith) in
    let u = rw e at (unsigned-digits (suc n) n (omega arith)) in rw e (ground (arith, u))
parse-print_int (negsuc n) h =
    rw (unsigned-digits (suc (suc n)) (suc n) (omega arith)) (ground arith)

digit-Solid : (d : ℕ) → d < 10 → is_space (b'0' + d) ≡ false
unfolding is_space
digit-Solid d h = ground arith

-- A numeral holds no space.
abbrev Solid : ℕ → Type 0
Solid c = is_space c ≡ false

digits-Solid : (fuel n : ℕ) → All Solid (digits fuel n)
unfolding digits
digits-Solid zero n = tt
digits-Solid (suc fuel) n =
    let solid : Solid (b'0' + n % 10) = digit-Solid (n % 10) (omega arith) in
    elim (Bool-cases (n / 10 == 0)) [
      | inl last ↦ rw last (solid, tt)
      | inr more ↦
          rw more
            (All-append Solid (digits fuel (n / 10)) _ (digits-Solid fuel (n / 10)) (solid, tt))
    ]

print_int-Solid : (v : ℤ) → All Solid (print_int v)
unfolding print_int is_space
print_int-Solid (pos n) = digits-Solid (suc n) n
print_int-Solid (negsuc n) = (refl, digits-Solid (suc (suc n)) (suc n))

-- Every int64 is read back from its numeral, also where spaces are trimmed first.
pub parse-trim_print_int : (v : ℤ) → IsInt64 v → parse_int (trim_space (print_int v)) ≡ some v
parse-trim_print_int v h =
    rw (trim_space_id (print_int v) (print_int-Solid v)) (parse-print_int v h)
