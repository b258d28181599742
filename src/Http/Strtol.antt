-- ===== src/Http/Strtol.antt =====
-- `strtol` of the C library, in the bases 10 and 16 that the parser uses, on the bytes from a
-- pointer on. A `long` has 64 bits.
use mnapp.Shared.Int.{ℤ, pos, negsuc}
use mnapp.Shared.{
  ℕ, suc, ◌+◌, ◌-◌, ◌*◌, ◌^◌, Bool, false, ◌&&◌, ◌||◌, Option, none, some, [], ◌∷◌, ltb, leb, ◌==◌,
  if◌then◌else◌, Bytes, drop, get_or,
}
use mnapp.Url.Spec.{digit_value}

-- The value, the offset of the end pointer, and whether `errno` was set to `ERANGE`.
pub record Parsed : Type 0 where
  pub value : ℤ
  pub end : ℕ
  pub range : Bool

pub record Digits : Type 0 where
  pub value : ℕ
  pub count : ℕ

-- Whether `errno` was `EINVAL` or `ERANGE` before, and whether the C library sets it to `EINVAL`
-- where there are no digits, which POSIX allows.
pub record Errno : Type 0 where
  pub before : Bool
  pub einval : Bool

-- Whether `strtol` sets it to one of them.
abbrev pub sets_errno : Errno → Parsed → Bool
sets_errno errno p = p.range || (errno.einval && p.end == 0)

-- `isspace` in the C locale
abbrev pub isspace : ℕ → Bool
isspace c = c == b' ' || leb 9 c && leb c 13

unfoldable pub spaces : Bytes → ℕ
spaces [] = 0
spaces (c ∷ s) = if isspace c then suc (spaces s) else 0

abbrev pub digit_in : ℕ → ℕ → Option ℕ
digit_in base c = elim (digit_value c) [
  | none ↦ none
  | some d ↦ if ltb d base then some d else none
]

-- The digits in front of the text, read behind the number `acc`.
unfoldable pub digits : ℕ → Bytes → ℕ → Digits
digits base [] acc = record { value = acc; count = 0 }
digits base (c ∷ s) acc = elim (digit_in base c) [
  | none ↦ record { value = acc; count = 0 }
  | some d ↦
      let r = digits base s (acc * base + d) in record { value = r.value; count = suc r.count }
]

-- The length of a prefix `0x` that a digit follows.
abbrev pub hex_prefix : ℕ → Bytes → ℕ
hex_prefix base s =
    let x = get_or s 1 0 in
    if base == 16 && get_or s 0 0 == b'0' && (x == b'x' || x == b'X')
    then elim (digit_value (get_or s 2 0)) [ none ↦ 0 | some _ ↦ 2 ]
    else 0

abbrev long_max : ℕ
long_max = 2 ^ 63 - 1

abbrev pub clamp : Bool → ℕ → ℤ
clamp minus n =
    if minus
    then if n == 0 then pos 0 else negsuc ((if ltb long_max (n - 1) then long_max else n - 1))
    else pos (if ltb long_max n then long_max else n)

unfoldable pub strtol : ℕ → Bytes → Parsed
unfolding spaces digits
strtol base s =
    let w = spaces s in
    let mark = get_or (drop w s) 0 0 in
    let sign = if mark == b'-' || mark == b'+' then 1 else 0 in
    let minus = mark == b'-' in
    let prefix = hex_prefix base (drop (w + sign) s) in
    let d = digits base (drop (w + sign + prefix) s) 0 in
    if d.count == 0 then record { value = pos 0; end = 0; range = false } else record {
      value = clamp minus d.value;
      end = w + sign + prefix + d.count;
      range = if minus then ltb (long_max + 1) d.value else ltb long_max d.value;
    }
