-- ===== src/Http/Method.antt =====
-- `parse_method` never reports an error.
use mnapp.Http.Line.{strncasecmp_eq, parse_method}
use mnapp.Shared.Int.{pos, ◌≤ℤ◌}
use mnapp.Shared.{ℕ, ◌≡◌, refl, true, ◌∷◌, [], arith, Bytes, codes}

strncasecmp_eq-zero : (s t : Bytes) → strncasecmp_eq s t 0 ≡ true
unfolding strncasecmp_eq
strncasecmp_eq-zero [] t = refl
strncasecmp_eq-zero (c ∷ s) t = refl

-- Every word gets a method number from 1 to 10: the error for an empty word is never returned.
pub parse_method_bounds :
    (s : Bytes) (sz : ℕ) → (pos 1 ≤ℤ parse_method s sz) × (parse_method s sz ≤ℤ pos 10)
unfolding parse_method
parse_method_bounds s sz = ground (arith, strncasecmp_eq-zero s (codes "GET"))
