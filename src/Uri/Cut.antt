-- ===== src/Uri/Cut.antt =====
-- `strchr` cuts a text at the character that it finds.
use mnapp.Shared.{
  ℕ, zero, suc, ◌+◌, ◌-◌, ◌≤◌, ◌<◌, ◌≡◌, refl, ap, ◌∙◌, ◌⊎◌, inl, inr, some, [], ◌∷◌, ◌++◌, arith,
  ◌==◌, Bytes, Bool-cases, Option-cases, length, take, drop, take-append-drop, sym,
}
use mathlib.Core.Path.{ap₂}
use mnapp.Uri.Defs.{strchr}

take-nil : (n : ℕ) → take {A = ℕ} n [] ≡ []
take-nil zero = refl
take-nil (suc n) = refl

-- The first character, or one behind it.
pub strchr_cases :
    (c x : ℕ) (s : Bytes) (k : ℕ)
    → strchr c (x ∷ s) ≡ some k
    → ((x ≡ c) × (k ≡ 0)) ⊎ ((n : ℕ) × (strchr c s ≡ some n) × (k ≡ suc n))
unfolding strchr
strchr_cases c x s k h = elim (Bool-cases (x == c)) [
  | inl e ↦ inl (ground arith)
  | inr e ↦ elim (Option-cases (strchr c s)) [
    | inl no_c ↦ ground arith
    | inr (n, found) ↦ inr (n, found, ground arith)
  ]
]

pub strchr-nil : (c k : ℕ) → strchr c [] ≡ some k → ⊥
unfolding strchr
strchr-nil c k h = cc

strchr-drop :
    (c : ℕ) (s : Bytes) (k : ℕ)
    → strchr c s ≡ some k
    → (drop k s ≡ c ∷ drop (suc k) s) × (k < length s)
strchr-drop c [] k h = absurd (strchr-nil c k h)
strchr-drop c (x ∷ s) k h = elim (strchr_cases c x s k h) [
  | inl (e, z) ↦ rw (z, e) (refl, omega arith)
  | inr (n, found, z) ↦ let (cut, lt) = strchr-drop c s n found in rw z (cut, omega arith)
]

take_split : (k n : ℕ) (s : Bytes) → k ≤ n → take n s ≡ take k s ++ take (n - k) (drop k s)
take_split zero n s h = let e : n ≡ n - 0 = omega arith in ap (λ (m : ℕ). take m s) e
take_split (suc k) zero s h = absurd (omega arith)
take_split (suc k) (suc n) [] h = rw (take-nil (suc n - suc k)) refl
take_split (suc k) (suc n) (x ∷ s) h =
    let e : n - k ≡ suc n - suc k = omega arith in
    ap (◌∷◌ x) (take_split k n s (omega arith) ∙ ap (λ (m : ℕ). take k s ++ take m (drop k s)) e)

pub strchr-lt : (c : ℕ) (s : Bytes) (k : ℕ) → strchr c s ≡ some k → k < length s
strchr-lt c s k h = (strchr-drop c s k h).1

-- The text is what stands before the character, the character, and what stands behind it.
pub strchr-cut :
    (c : ℕ) (s : Bytes) (k : ℕ) → strchr c s ≡ some k → take k s ++ (c ∷ drop (k + 1) s) ≡ s
strchr-cut c s k h =
    let (found, _) = strchr-drop c s k h in
    let e : k + 1 ≡ suc k = omega arith in
    ap (λ (m : ℕ). take k s ++ (c ∷ drop m s)) e
    ∙ ap (◌++◌ (take k s)) (sym found)
    ∙ take-append-drop k s

-- The same of a part of the text that holds the character.
pub strchr-cut_before :
    (c : ℕ) (s : Bytes) (k n : ℕ)
    → strchr c s ≡ some k
    → k < n
    → take k s ++ (c ∷ take (n - (k + 1)) (drop (k + 1) s)) ≡ take n s
strchr-cut_before c s k n h lt =
    let (found, _) = strchr-drop c s k h in
    let e : k + 1 ≡ suc k = omega arith in
    let d : n - k ≡ suc (n - suc k) = omega arith in
    ap (λ (m : ℕ). take k s ++ (c ∷ take (n - m) (drop m s))) e
    ∙ ap (λ (t : Bytes). take k s ++ t) (sym (ap₂ take d found))
    ∙ sym (take_split k n s (omega arith))

pub drop-cut : (c : ℕ) (s : Bytes) (k : ℕ) → strchr c s ≡ some k → c ∷ drop (k + 1) s ≡ drop k s
drop-cut c s k h =
    let (found, _) = strchr-drop c s k h in
    let e : k + 1 ≡ suc k = omega arith in ap (λ (m : ℕ). c ∷ drop m s) e ∙ sym found
