-- ===== src/Shared/MnBytes.antt =====
-- The counted byte strings of the library mncommon, which is not part of this repository.
use Prim.Native.Nat.{ℕ, ◌≤◌}
use mathlib.Core.Bool.{Bool, true}
use mathlib.Core.List.{[]}
use mathlib.Core.Logic.{◌↔◌}
use mathlib.Core.Option.{Option, none, some}
use mathlib.Core.Path.{◌≡◌}
use mnapp.Shared.Lists.{length, take}
use mnapp.Shared.Tests.{Bytes}

-- `B` stands for `mnbytes_t *` that is not NULL, and an `Option B` for a pointer that may be.
pub record MnBytes (B : Type 0) : Type 0 where
  -- `bytes_new_from_str`, `bytes_new_from_str_len`; the argument is a C string, with no NUL inside
  pub from_str : Bytes → B
  pub from_str_len : Bytes → ℕ → B
  -- `bytes_new_from_bytes`
  pub from_bytes : B → B
  -- `BDATA` and `BCDATA`, read as a C string
  pub cdata : B → Bytes
  -- `bytes_is_null_or_empty`
  pub is_null_or_empty : Option B → Bool
  -- `bytes_cmp(a, b) == 0`; nothing is known of a NULL argument
  pub cmp_eq : Option B → B → Bool
  pub cdata-from_str : (s : Bytes) → cdata (from_str s) ≡ s
  pub cdata-from_str_len : (s : Bytes) (n : ℕ) → n ≤ length s → cdata (from_str_len s n) ≡ take n s
  pub cdata-from_bytes : (b : B) → cdata (from_bytes b) ≡ cdata b
  pub null_is_null_or_empty : is_null_or_empty none ≡ true
  pub is_null_or_empty_iff : (b : B) → (is_null_or_empty (some b) ≡ true) ↔ (cdata b ≡ [])
  pub cmp_eq_iff : (a b : B) → (cmp_eq (some a) b ≡ true) ↔ (cdata a ≡ cdata b)
