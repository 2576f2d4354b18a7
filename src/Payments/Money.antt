-- ===== src/Payments/Money.antt =====
-- parseUsdcMicros and formatUsdc of apps/api/src/engines/payments/permit2.ts (store.ts has the same
-- two functions): USDC amounts as decimal texts, and as whole millionths. Texts are code points.
pub mod RoundTrip
use mathlib.Core.Option
use aops_pmoa.Prelude.{
  ℕ, zero, suc, ◌+◌, ◌-◌, ◌*◌, ◌/◌, ◌%◌, Bool, ◌&&◌, Option, none, some, List, [], ◌∷◌, ◌++◌, leb,
  ltb, nat_beq, if◌then◌else◌, all, length, is_empty, trim,
}

abbrev pub is_digit : ℕ → Bool
is_digit c = leb b'0' c && leb c b'9'

-- The longest prefix of digits, `(\d+)` of the pattern, and what follows it.
unfoldable pub span_digits : List ℕ → List ℕ × List ℕ
span_digits [] = ([], [])
span_digits (c ∷ s) =
    let (digits, rest) = span_digits s in if is_digit c then (c ∷ digits, rest) else ([], c ∷ s)

abbrev pub replicate : ℕ → ℕ → List ℕ
replicate zero c = []
replicate (suc n) c = c ∷ replicate n c

abbrev pub pad_end : ℕ → List ℕ → List ℕ
pad_end n s = s ++ replicate (n - length s) b'0'

abbrev pub pad_start : ℕ → List ℕ → List ℕ
pad_start n s = replicate (n - length s) b'0' ++ s

-- `BigInt(text)` of a text of digits
unfoldable pub decimal_value : ℕ → List ℕ → ℕ
decimal_value acc [] = acc
decimal_value acc (c ∷ s) = decimal_value (acc * 10 + (c - b'0')) s

-- `(\d{1,6})?` to the end of the text, padded to six places
unfoldable pub fraction_value : List ℕ → Option ℕ
fraction_value digits =
    if all is_digit digits && leb (length digits) 6
    then some (decimal_value 0 (pad_end 6 digits))
    else none

unfoldable pub after_whole : ℕ → List ℕ → Option ℕ
after_whole whole [] = some (whole * 1000000)
after_whole whole (c ∷ s) =
    if nat_beq c b'.' then Option.map (λ f. whole * 1000000 + f) (fraction_value s) else none

-- `none` is the failure `invalid_usdc_amount`.
unfoldable pub parse_usdc_micros : List ℕ → Option ℕ
parse_usdc_micros text =
    let (digits, rest) = span_digits (trim text) in
    if is_empty digits then none else after_whole (decimal_value 0 digits) rest

-- `toString()` of a whole number: each round gives the last digit. A number above the fuel does not
-- occur, since the quotient by ten falls.
unfoldable pub decimal_from : ℕ → ℕ → List ℕ
decimal_from zero n = []
decimal_from (suc fuel) n =
    let front = decimal_from fuel (n / 10) in
    if ltb n 10 then (n + b'0') ∷ [] else front ++ (n % 10 + b'0') ∷ []

unfoldable pub decimal : ℕ → List ℕ
unfolding decimal_from
decimal n = decimal_from (suc n) n

unfoldable pub format_usdc : ℕ → List ℕ
format_usdc micros = decimal (micros / 1000000) ++ (b'.' ∷ pad_start 6 (decimal (micros % 1000000)))
