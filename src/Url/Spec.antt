-- ===== src/Url/Spec.antt =====
-- Percent coding of a list of bytes, with no memory: what the two functions promise.
use mnapp.Shared.{
  ℕ, ◌+◌, ◌-◌, ◌*◌, ◌/◌, ◌%◌, ◌<◌, ◌≡◌, false, Option, none, some, [], ◌∷◌, ◌++◌, arith, refl, ltb,
  leb, ◌==◌, ◌&&◌, if◌then◌else◌, Bytes,
}
use mnapp.Url.Table.{is_copied}

-- The digit of a nibble: `0` to `9`, then `A` to `F`.
abbrev pub digit : ℕ → ℕ
digit n = if ltb n 10 then b'0' + n else b'A' + n - 10

-- The value of a hexadecimal digit, in either case.
abbrev pub digit_value : ℕ → Option ℕ
digit_value c =
    if leb b'0' c && leb c b'9'
    then some (c - b'0')
    else if leb b'a' c && leb c b'f'
    then some (c - b'a' + 10)
    else if leb b'A' c && leb c b'F'
    then some (c - b'A' + 10)
    else none

abbrev pub encoded_byte : ℕ → Bytes
encoded_byte c = if is_copied c then c ∷ [] else b'%' ∷ digit (c / 16) ∷ digit (c % 16) ∷ []

unfoldable pub encoded : Bytes → Bytes
encoded [] = []
encoded (c ∷ s) = encoded_byte c ++ encoded s

abbrev pub cons_to : ℕ → Option Bytes → Option Bytes
cons_to c none = none
cons_to c (some s) = some (c ∷ s)

-- The byte of two hexadecimal digits, in front of what is decoded behind them.
abbrev pub escape_to : ℕ → ℕ → Option Bytes → Option Bytes
escape_to h l rest = elim (digit_value h) [
  | none ↦ none
  | some hi ↦ elim (digit_value l) [ none ↦ none | some lo ↦ cons_to (hi * 16 + lo) rest ]
]

-- The text that `s` is the code of; `none` where a `%` is not followed by two digits.
unfoldable pub decoded : Bytes → Option Bytes
decoded [] = some []
decoded (c ∷ []) = if c == b'%' then none else some (c ∷ [])
decoded (c ∷ h ∷ []) = if c == b'%' then none else cons_to c (decoded (h ∷ []))
decoded (c ∷ h ∷ l ∷ s) =
    if c == b'%' then escape_to h l (decoded s) else cons_to c (decoded (h ∷ l ∷ s))

pub decoded_plain :
    (c : ℕ) (s : Bytes) → (c == b'%') ≡ false → decoded (c ∷ s) ≡ cons_to c (decoded s)
unfolding decoded
decoded_plain c [] e = ground arith
decoded_plain c (h ∷ []) e = ground arith
decoded_plain c (h ∷ l ∷ s) e = rw e

pub digit_value-lt : (c : ℕ) {n : ℕ} → digit_value c ≡ some n → n < 16
digit_value-lt c h = ground arith

pub digit_value-digit : (n : ℕ) → n < 16 → digit_value (digit n) ≡ some n
digit_value-digit n h = ground arith

module _ (h l : ℕ) (rest : Option Bytes) where
  pub escape_to_bad_hi : digit_value h ≡ none → escape_to h l rest ≡ none
  escape_to_bad_hi e = ground arith

  pub escape_to_bad_lo : digit_value l ≡ none → escape_to h l rest ≡ none
  escape_to_bad_lo e = ground arith

  pub escape_to_lem :
      (hi lo : ℕ)
      → digit_value h ≡ some hi
      → digit_value l ≡ some lo
      → escape_to h l rest ≡ cons_to (hi * 16 + lo) rest
  escape_to_lem hi lo e f = rw (e, escape_to) (rw f)

pub decoded_escape : (h l : ℕ) (s : Bytes) → decoded (b'%' ∷ h ∷ l ∷ s) ≡ escape_to h l (decoded s)
unfolding decoded
decoded_escape h l s = refl
