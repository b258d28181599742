-- ===== src/Shared/Lists.antt =====
-- Lists measured and indexed by native numbers, and predicates on all items of a list.
use Prim.Native.Nat.{ℕ, zero, suc, ◌+◌, ◌-◌, min}
use mathlib.Core.List.{List, [], ◌∷◌, ◌++◌}
use mathlib.Core.Option.{Option, none, some}
use mathlib.Core.Path.{◌≡◌, refl, ap}
use native.Mathlib.Omega.{arith}

module _ {ℓ} {A : Type ℓ} where
  abbrev pub length : List A → ℕ
  length [] = 0
  length (x ∷ xs) = suc (length xs)

  abbrev pub get_or : List A → ℕ → A → A
  get_or [] i d = d
  get_or (x ∷ xs) zero d = x
  get_or (x ∷ xs) (suc i) d = get_or xs i d

  abbrev pub get_elem? : List A → ℕ → Option A
  get_elem? [] i = none
  get_elem? (x ∷ xs) zero = some x
  get_elem? (x ∷ xs) (suc i) = get_elem? xs i

  -- A write out of bounds changes nothing.
  abbrev pub set : List A → ℕ → A → List A
  set [] i v = []
  set (x ∷ xs) zero v = v ∷ xs
  set (x ∷ xs) (suc i) v = x ∷ set xs i v

  abbrev pub take : ℕ → List A → List A
  take zero xs = []
  take (suc n) [] = []
  take (suc n) (x ∷ xs) = x ∷ take n xs

  abbrev pub drop : ℕ → List A → List A
  drop zero xs = xs
  drop (suc n) [] = []
  drop (suc n) (x ∷ xs) = drop n xs

  abbrev pub replicate : ℕ → A → List A
  replicate zero a = []
  replicate (suc n) a = a ∷ replicate n a

  pub length-append : (xs ys : List A) → length (xs ++ ys) ≡ length xs + length ys
  length-append [] ys = omega arith
  length-append (x ∷ xs) ys = omega (arith, length-append xs ys)

  pub get_elem?-length : (xs : List A) (x : A) → get_elem? (xs ++ x ∷ []) (length xs) ≡ some x
  get_elem?-length [] x = refl
  get_elem?-length (y ∷ xs) x = get_elem?-length xs x

  pub take-length : (xs : List A) → take (length xs) xs ≡ xs
  take-length [] = refl
  take-length (x ∷ xs) = ap (λ r. x ∷ r) (take-length xs)

  pub take-append-drop : (n : ℕ) (xs : List A) → take n xs ++ drop n xs ≡ xs
  take-append-drop zero xs = refl
  take-append-drop (suc n) [] = refl
  take-append-drop (suc n) (x ∷ xs) = rw (take-append-drop n xs)

  pub take-drop-drop :
      (i k j : ℕ) (xs : List A) → j ≡ i + k → take k (drop i xs) ++ drop j xs ≡ drop i xs
  take-drop-drop zero k j xs e = let same : j ≡ k = omega arith in rw (same) (take-append-drop k xs)
  take-drop-drop (suc i) zero zero xs e = absurd (omega arith)
  take-drop-drop (suc i) (suc k) zero xs e = absurd (omega arith)
  take-drop-drop (suc i) zero (suc j) [] e = refl
  take-drop-drop (suc i) (suc k) (suc j) [] e = refl
  take-drop-drop (suc i) k (suc j) (x ∷ xs) e = take-drop-drop i k j xs (omega arith)

  pub get_or-drop :
      (i j k : ℕ) (xs : List A) (d : A) → k ≡ i + j → get_or (drop i xs) j d ≡ get_or xs k d
  get_or-drop zero j k xs d e = let same : k ≡ j = omega arith in rw (same) refl
  get_or-drop (suc i) j zero xs d e = absurd (omega arith)
  get_or-drop (suc i) j (suc k) [] d e = refl
  get_or-drop (suc i) j (suc k) (x ∷ xs) d e = get_or-drop i j k xs d (omega arith)

  pub length-drop : (n : ℕ) (xs : List A) → length (drop n xs) ≡ length xs - n
  length-drop zero xs = omega arith
  length-drop (suc n) [] = omega arith
  length-drop (suc n) (x ∷ xs) = omega (arith, length-drop n xs)

  pub length-take : (n : ℕ) (xs : List A) → length (take n xs) ≡ min n (length xs)
  length-take zero xs = omega arith
  length-take (suc n) [] = omega arith
  length-take (suc n) (x ∷ xs) = omega (arith, length-take n xs)

  -- The item at the front of the second part, and a write there. The index is a variable.
  pub get_or-append :
      (xs : List A) (y : A) (ys : List A) (d : A) (i : ℕ)
      → i ≡ length xs
      → get_or (xs ++ (y ∷ ys)) i d ≡ y
  get_or-append [] y ys d i e = rw e
  get_or-append (x ∷ xs) y ys d zero e = absurd (omega arith)
  get_or-append (x ∷ xs) y ys d (suc i) e = get_or-append xs y ys d i (omega arith)

  pub set-append :
      (xs : List A) (y : A) (ys : List A) (v : A) (i : ℕ)
      → i ≡ length xs
      → set (xs ++ (y ∷ ys)) i v ≡ xs ++ (v ∷ ys)
  set-append [] y ys v i e = rw e
  set-append (x ∷ xs) y ys v zero e = absurd (omega arith)
  set-append (x ∷ xs) y ys v (suc i) e = ap (◌∷◌ x) (set-append xs y ys v i (omega arith))

  pub drop-append : (xs ys : List A) (n : ℕ) → n ≡ length xs → drop n (xs ++ ys) ≡ ys
  drop-append [] ys n e = rw e
  drop-append (x ∷ xs) ys zero e = absurd (omega arith)
  drop-append (x ∷ xs) ys (suc n) e = drop-append xs ys n (omega arith)

  pub take-append : (xs ys : List A) (n : ℕ) → n ≡ length xs → take n (xs ++ ys) ≡ xs
  take-append [] ys n e = rw e
  take-append (x ∷ xs) ys zero e = absurd (omega arith)
  take-append (x ∷ xs) ys (suc n) e = ap (◌∷◌ x) (take-append xs ys n (omega arith))

module _ {ℓ κ} {A : Type ℓ} (P : A → Type κ) where
  abbrev pub All : List A → Type κ
  All [] = Unit
  All (x ∷ xs) = P x × All xs

  pub All-append : (xs ys : List A) → All xs → All ys → All (xs ++ ys)
  All-append [] ys _ hy = hy
  All-append (x ∷ xs) ys (px, hx) hy = (px, All-append xs ys hx hy)
