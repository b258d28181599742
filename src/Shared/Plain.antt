-- ===== src/Shared/Plain.antt =====
-- The interface `MnBytes` filled in by plain lists of bytes, for runs of the models.
use Prim.Native.Nat.{ℕ}
use mathlib.Core.Bool.{Bool, true, false, ◌&&◌}
use mathlib.Core.List.{[], ◌∷◌}
use mathlib.Core.Logic.{◌↔◌}
use mathlib.Core.Option.{Option, none, some}
use mathlib.Core.Path.{◌≡◌, refl}
use mnapp.Shared.Lists.{take}
use mnapp.Shared.MnBytes.{MnBytes}
use mnapp.Shared.Tests.{Bytes, ◌==◌}
use native.Mathlib.Omega.{arith}

-- Whether `b` is the byte `x` with `a` behind it, for the answer `same a` on the rest.
unfoldable pub led_by : ℕ → (Bytes → Bool) → Bytes → Bool
led_by x rest [] = false
led_by x rest (y ∷ b) = rest b && x == y

unfoldable pub same : Bytes → Bytes → Bool
same [] [] = true
same [] (y ∷ b) = false
same (x ∷ a) b = led_by x (same a) b

pub same_iff : (a b : Bytes) → (same a b ≡ true) ↔ (a ≡ b)
unfolding same led_by
same_iff [] [] = ground arith
same_iff [] (y ∷ b) = ground arith
same_iff (x ∷ a) [] = ground arith
same_iff (x ∷ a) (y ∷ b) = ground (arith, same_iff a b)

unfoldable pub empty : Option Bytes → Bool
empty none = true
empty (some []) = true
empty (some (x ∷ s)) = false

pub empty_iff : (s : Bytes) → (empty (some s) ≡ true) ↔ (s ≡ [])
unfolding empty
empty_iff [] = ground arith
empty_iff (x ∷ s) = ground arith

unfoldable pub equal_to : Option Bytes → Bytes → Bool
equal_to none b = false
equal_to (some a) b = same a b

pub equal_to_iff : (a b : Bytes) → (equal_to (some a) b ≡ true) ↔ (a ≡ b)
unfolding equal_to
equal_to_iff = same_iff

pub empty-none : empty none ≡ true
unfolding empty
empty-none = refl

-- mncommon's strings as plain lists of bytes.
abbrev pub plain : MnBytes Bytes
plain = record {
  from_str = λ s. s;
  from_str_len = λ s n. take n s;
  from_bytes = λ b. b;
  cdata = λ b. b;
  is_null_or_empty = empty;
  cmp_eq = equal_to;
  cdata-from_str = λ s. refl;
  cdata-from_str_len = λ s n h. refl;
  cdata-from_bytes = λ b. refl;
  null_is_null_or_empty = empty-none;
  is_null_or_empty_iff = empty_iff;
  cmp_eq_iff = equal_to_iff;
}
