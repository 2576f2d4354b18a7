-- ===== src/Payments/Money/RoundTrip.antt =====
-- formatUsdc and parseUsdcMicros of permit2.ts, one after the other.
use mathlib.Core.List.{reverse, reverse-append, reverse-reverse, append_assoc, append-nil}
use aops_pmoa.Prelude.{
  ℕ, zero, suc, ◌+◌, ◌-◌, ◌*◌, ◌/◌, ◌%◌, ◌≤◌, ◌<◌, ◌≡◌, inl, inr, refl, sym, ap, ◌∙◌, true, false,
  ◌&&◌, some, List, [], ◌∷◌, ◌++◌, arith, ltb, all, length, is_empty, is_empty-append, trim,
  trim_start, Bool-cases,
}
use aops_pmoa.Payments.Money.{
  is_digit, span_digits, replicate, pad_start, decimal_value, fraction_value, after_whole,
  parse_usdc_micros, decimal_from, decimal, format_usdc,
}

-- Powers of ten, as products that compute.
abbrev tens : ℕ → ℕ
tens zero = 1
tens (suc k) = 10 * tens k

pub length-append {ℓ} : {A : Type ℓ} (xs ys : List A) → length (xs ++ ys) ≡ length xs + length ys
length-append [] ys = omega arith
length-append (x ∷ xs) ys = omega (arith, length-append xs ys)

all-append : (xs ys : List ℕ) → all is_digit (xs ++ ys) ≡ (all is_digit xs && all is_digit ys)
all-append [] ys = refl
all-append (x ∷ xs) ys = ground (arith, all-append xs ys)

decimal_value-append :
    (acc : ℕ) (xs ys : List ℕ)
    → decimal_value acc (xs ++ ys) ≡ decimal_value (decimal_value acc xs) ys
unfolding decimal_value
decimal_value-append acc [] ys = refl
decimal_value-append acc (x ∷ xs) ys = decimal_value-append (acc * 10 + (x - b'0')) xs ys

-- A number is the value of its digits, which are digits, at least one, and few where it is small.
decimal_value-decimal_from : (fuel n : ℕ) → n < fuel → decimal_value 0 (decimal_from fuel n) ≡ n
unfolding decimal_value decimal_from
decimal_value-decimal_from zero n h = absurd (omega arith)
decimal_value-decimal_from (suc fuel) n h = elim (Bool-cases (ltb n 10)) [
  | inl small ↦ rw small (omega arith)
  | inr large ↦
      rw (large, decimal_value-append, decimal_value-decimal_from fuel (n / 10) (ground arith))
        (omega arith)
]

pub decimal_value-decimal : (n : ℕ) → decimal_value 0 (decimal n) ≡ n
unfolding decimal
decimal_value-decimal n = decimal_value-decimal_from (suc n) n (omega arith)

all-decimal_from : (fuel n : ℕ) → all is_digit (decimal_from fuel n) ≡ true
unfolding decimal_from
all-decimal_from zero n = refl
all-decimal_from (suc fuel) n = ground (
  arith,
  all-decimal_from fuel (n / 10),
  all-append (decimal_from fuel (n / 10)) ((n % 10 + b'0') ∷ []),
)

length-decimal_from-le : (fuel n k : ℕ) → n < tens (suc k) → length (decimal_from fuel n) ≤ suc k
unfolding decimal_from
length-decimal_from-le zero n k h = omega arith
length-decimal_from-le (suc fuel) n zero h = ground arith
length-decimal_from-le (suc fuel) n (suc k) h = ground (
  arith,
  length-decimal_from-le fuel (n / 10) k,
  length-append (decimal_from fuel (n / 10)) ((n % 10 + b'0') ∷ []),
)

span_digits-append :
    (ds s : List ℕ) → all is_digit ds ≡ true → span_digits (ds ++ (b'.' ∷ s)) ≡ (ds, b'.' ∷ s)
unfolding span_digits
span_digits-append [] s h = refl
span_digits-append (d ∷ ds) s h = ground (arith, span_digits-append ds s)

-- A text that ends in a digit; appending in front keeps that.
abbrev EndsInDigit : List ℕ → Type 0
EndsInDigit s = (front : List ℕ) × (c : ℕ) × (s ≡ front ++ (c ∷ [])) × (is_digit c ≡ true)

append-EndsInDigit : (xs : List ℕ) {ys : List ℕ} → EndsInDigit ys → EndsInDigit (xs ++ ys)
append-EndsInDigit xs (front, c, e, h) =
    (xs ++ front, c, ap (λ t. xs ++ t) e ∙ sym (append_assoc xs front (c ∷ [])), h)

decimal_from-EndsInDigit : (fuel n : ℕ) → EndsInDigit (decimal_from (suc fuel) n)
unfolding decimal_from
decimal_from-EndsInDigit fuel n = elim (Bool-cases (ltb n 10)) [
  | inl small ↦ rw small ([], n + b'0', refl, ground arith)
  | inr large ↦ rw large (decimal_from fuel (n / 10), n % 10 + b'0', refl, ground arith)
]

trim_of_ends : (s : List ℕ) → trim_start s ≡ s → EndsInDigit s → trim s ≡ s
unfolding trim
trim_of_ends s start (front, c, e, h) =
    let reversed : reverse s ≡ c ∷ reverse front = ap reverse e ∙ reverse-append front (c ∷ []) in
    let kept : trim_start (c ∷ reverse front) ≡ c ∷ reverse front = ground arith in
    rw (start, reversed, kept, ← reversed) (reverse-reverse s)

-- A text that is not empty and begins with digits is not trimmed in front.
trim_start_of_digits :
    (ds s : List ℕ) → is_empty ds ≡ false → all is_digit ds ≡ true → trim_start (ds ++ s) ≡ ds ++ s
unfolding trim
trim_start_of_digits [] s h k = cc
trim_start_of_digits (d ∷ ds) s h k = ground arith

decimal_from-ne-nil : (fuel n : ℕ) → is_empty (decimal_from (suc fuel) n) ≡ false
unfolding decimal_from
decimal_from-ne-nil fuel n =
    ground (arith, is_empty-append (decimal_from fuel (n / 10)) ((n % 10 + b'0') ∷ []))

length-replicate : (k c : ℕ) → length (replicate k c) ≡ k
length-replicate zero c = refl
length-replicate (suc k) c = ap suc (length-replicate k c)

all-replicate : (k : ℕ) → all is_digit (replicate k b'0') ≡ true
all-replicate zero = refl
all-replicate (suc k) = all-replicate k

decimal_value-zeros :
    (k : ℕ) (s : List ℕ) → decimal_value 0 (replicate k b'0' ++ s) ≡ decimal_value 0 s
unfolding decimal_value
decimal_value-zeros zero s = refl
decimal_value-zeros (suc k) s = decimal_value-zeros k s

-- Six digits after the point are read as they stand.
fraction_value-padded :
    (s : List ℕ)
    → all is_digit s ≡ true
    → length s ≤ 6
    → fraction_value (pad_start 6 s) ≡ some (decimal_value 0 s)
unfolding fraction_value
fraction_value-padded s digits short =
    let long : length (pad_start 6 s) ≡ 6 = omega (
      arith,
      length-append (replicate (6 - length s) b'0') s,
      length-replicate (6 - length s) b'0',
    ) in
    let plain : all is_digit (pad_start 6 s) ≡ true =
      ground (arith, all-append (replicate (6 - length s) b'0') s, all-replicate (6 - length s)) in
    rw (plain, long, append-nil) (ap some (decimal_value-zeros (6 - length s) s))

module _ (micros : ℕ) where
  fraction : List ℕ
  fraction = decimal (micros % 1000000)

  fraction_read : fraction_value (pad_start 6 fraction) ≡ some (micros % 1000000)
  unfolding fraction decimal
  fraction_read =
      fraction_value-padded fraction (all-decimal_from (suc (micros % 1000000)) (micros % 1000000))
        (length-decimal_from-le (suc (micros % 1000000)) (micros % 1000000) 5 (omega arith))
      ∙ ap some
          (decimal_value-decimal_from (suc (micros % 1000000)) (micros % 1000000) (omega arith))

  format-not-trimmed : trim (format_usdc micros) ≡ format_usdc micros
  unfolding format_usdc decimal
  format-not-trimmed =
      trim_of_ends (format_usdc micros)
        (trim_start_of_digits (decimal (micros / 1000000)) _
          (decimal_from-ne-nil (micros / 1000000) (micros / 1000000))
          (all-decimal_from (suc (micros / 1000000)) (micros / 1000000)))
        (append-EndsInDigit (decimal (micros / 1000000)) (
          append-EndsInDigit (b'.' ∷ []) (
            append-EndsInDigit (replicate (6 - length (decimal (micros % 1000000))) b'0')
              (decimal_from-EndsInDigit (micros % 1000000) (micros % 1000000)))))

  span_digits-format :
      span_digits (format_usdc micros) ≡ (decimal (micros / 1000000), b'.' ∷ pad_start 6 fraction)
  unfolding format_usdc decimal fraction
  span_digits-format =
      span_digits-append (decimal (micros / 1000000)) (pad_start 6 (decimal (micros % 1000000)))
        (all-decimal_from (suc (micros / 1000000)) (micros / 1000000))

  after_whole-fraction : after_whole (micros / 1000000) (b'.' ∷ pad_start 6 fraction) ≡ some micros
  unfolding after_whole
  after_whole-fraction = rw fraction_read (ap some (omega arith))

  whole_read :
      (is_empty (decimal (micros / 1000000)) ≡ false)
      × (decimal_value 0 (decimal (micros / 1000000)) ≡ micros / 1000000)
  unfolding decimal
  whole_read = (
    decimal_from-ne-nil (micros / 1000000) (micros / 1000000),
    decimal_value-decimal_from (suc (micros / 1000000)) (micros / 1000000) (omega arith),
  )

  -- Parsing the formatted text of any number of millionths gives that number.
  pub parse-format : parse_usdc_micros (format_usdc micros) ≡ some micros
  unfolding parse_usdc_micros
  parse-format =
      rw (format-not-trimmed, span_digits-format, whole_read.0, whole_read.1) after_whole-fraction
