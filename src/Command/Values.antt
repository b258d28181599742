-- ===== src/Command/Values.antt =====
-- src/mncommand.c: the functions that store the value of an option.
use mnapp.Http.Message.{strcasecmp_eq}
use mnapp.Http.Strtol.{strtol}
use mnapp.Shared.Int.{ℤ, pos, negsuc}
use mnapp.Shared.{
  ℕ, ◌-◌, ◌%◌, ◌^◌, Bool, true, false, ◌||◌, if◌then◌else◌, Option, none, some, Bytes, codes,
}

-- The value that `mncommand_option_int` stores, from `optarg` and `opt.val`. `strtoimax` and
-- `strtol` are one function where both types have 64 bits.
unfoldable pub mncommand_option_int : Option Bytes → ℤ → ℤ
mncommand_option_int none val = val
mncommand_option_int (some optarg) val = (strtol 10 optarg).value

-- The value that `mncommand_option_bool` stores.
unfoldable pub mncommand_option_bool : Option Bytes → Bool
mncommand_option_bool none = true
mncommand_option_bool (some optarg) =
    if strcasecmp_eq optarg (codes "0")
      || strcasecmp_eq optarg (codes "off")
      || strcasecmp_eq optarg (codes "false")
      || strcasecmp_eq optarg (codes "no")
    then false
    else true

-- The pointer that `mncommand_option_bytes` stores, with `bytes_new_from_str`.
unfoldable pub mncommand_option_bytes : {B : Type 0} → (Bytes → B) → Option Bytes → Option B
mncommand_option_bytes new none = none
mncommand_option_bytes new (some optarg) = some (new optarg)

-- The value that `mncommand_option_uint` stores, with `strtoumax` of the C library. A `uintmax_t` has
-- 64 bits.
unfoldable pub mncommand_option_uint : (Bytes → ℕ) → Option Bytes → ℤ → ℕ
mncommand_option_uint strtoumax (some optarg) val = strtoumax optarg
mncommand_option_uint strtoumax none (pos n) = n % 2 ^ 64
mncommand_option_uint strtoumax none (negsuc n) = 2 ^ 64 - 1 - n % 2 ^ 64

-- The value that `mncommand_option_double` leaves, with `strtod` and the type `X` of numbers.
unfoldable pub mncommand_option_double : {X : Type 0} → (Bytes → X) → Option Bytes → X → X
mncommand_option_double strtod (some optarg) value = strtod optarg
mncommand_option_double strtod none value = value
