-- ===== src/Http/Scanned.antt =====
-- What `findcrlf` finds: the first CR and LF.
use mnapp.Http.Scan.{after, starts_crlf, findcrlf}
use mnapp.Shared.{
  ℕ, zero, suc, ◌<◌, ◌≡◌, true, false, inl, inr, Option, none, some, [], ◌∷◌, arith, Bytes,
  Bool-cases, get_elem?,
}

-- A CR at the offset, and an LF behind it.
abbrev pub IsCrlf : Bytes → ℕ → Type 0
IsCrlf s k = (get_elem? s k ≡ some b'\r') × (get_elem? s (suc k) ≡ some b'\n')

-- The first offset with a CR and an LF, or that there is none.
abbrev pub FirstCrlf : Bytes → Option ℕ → Type 0
FirstCrlf s none = (k : ℕ) → IsCrlf s k → ⊥
FirstCrlf s (some n) = IsCrlf s n × ((k : ℕ) → k < n → IsCrlf s k → ⊥)

starts_crlf-IsCrlf : (s : Bytes) → starts_crlf s ≡ true → IsCrlf s 0
starts_crlf-IsCrlf [] h = cc
starts_crlf-IsCrlf (c ∷ []) h = cc
starts_crlf-IsCrlf (c ∷ d ∷ s) h = ground arith

IsCrlf-starts_crlf : (s : Bytes) → starts_crlf s ≡ false → IsCrlf s 0 → ⊥
IsCrlf-starts_crlf [] h (cr, lf) = cc
IsCrlf-starts_crlf (c ∷ []) h (cr, lf) = cc
IsCrlf-starts_crlf (c ∷ d ∷ s) h (cr, lf) = ground arith

after-FirstCrlf :
    (c : ℕ) (s : Bytes) (o : Option ℕ)
    → starts_crlf (c ∷ s) ≡ false
    → FirstCrlf s o
    → FirstCrlf (c ∷ s) (after o)
after-FirstCrlf c s none here rest = none_case
  where
    none_case : (k : ℕ) → IsCrlf (c ∷ s) k → ⊥
    none_case zero at = IsCrlf-starts_crlf (c ∷ s) here at
    none_case (suc k) at = rest k at
after-FirstCrlf c s (some n) here (there, before) = (there, some_case)
  where
    some_case : (k : ℕ) → k < suc n → IsCrlf (c ∷ s) k → ⊥
    some_case zero lt at = IsCrlf-starts_crlf (c ∷ s) here at
    some_case (suc k) lt at = before k (omega arith) at

-- `findcrlf` finds the first CR that an LF follows inside the text, and NULL where there is none.
pub findcrlf-First : (s : Bytes) → FirstCrlf s (findcrlf s)
unfolding findcrlf
findcrlf-First [] = λ k (cr, lf). cc
findcrlf-First (c ∷ s) = elim (Bool-cases (starts_crlf (c ∷ s))) [
  | inl crlf ↦ rw crlf (starts_crlf-IsCrlf (c ∷ s) crlf, λ k lt. absurd (omega (arith, lt)))
  | inr other ↦ rw other (after-FirstCrlf c s _ other (findcrlf-First s))
]
