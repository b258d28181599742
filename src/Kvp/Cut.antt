-- ===== src/Kvp/Cut.antt =====
-- The cut of a text into pieces, keys and values, read from an offset on.
use mnapp.Kvp.Defs.{find_delim}
use mnapp.Kvp.Spec.{grow_first, pieces, key_of, value_of}
use mnapp.Shared.{
  ℕ, zero, suc, ◌+◌, ◌≡◌, ◌⊎◌, inl, inr, refl, ap, sym, List, [], ◌∷◌, ◌++◌, arith, ◌==◌, ==_iff,
  Bool-cases, Bytes, get_or, length, drop, append_assoc,
}

pub get_or-drop : (ss : Bytes) (j c : ℕ) (r : Bytes) → drop j ss ≡ c ∷ r → get_or ss j 0 ≡ c
get_or-drop [] zero c r h = ground arith
get_or-drop [] (suc j) c r h = ground arith
get_or-drop (x ∷ ss) zero c r h = ground (arith, h)
get_or-drop (x ∷ ss) (suc j) c r h = get_or-drop ss j c r h

pub drop_next : (ss : Bytes) (j c : ℕ) (r : Bytes) → drop j ss ≡ c ∷ r → drop (j + 1) ss ≡ r
drop_next [] zero c r h = ground arith
drop_next [] (suc j) c r h = ground arith
drop_next (x ∷ ss) zero c r h = ground (arith, h)
drop_next (x ∷ ss) (suc j) c r h =
    let e : suc j + 1 ≡ suc (j + 1) = omega arith in rw (e) (drop_next ss j c r h)

pub drop-length : (ss a b : Bytes) (i : ℕ) → drop i ss ≡ a ++ b → drop (i + length a) ss ≡ b
drop-length ss [] b i h = let e : i + 0 ≡ i = omega arith in rw (e) h
drop-length ss (c ∷ a) b i h =
    let e : i + suc (length a) ≡ i + 1 + length a = omega arith in
    rw (e) (drop-length ss a b (i + 1) (drop_next ss i c (a ++ b) h))

pub find_delim-key_of :
    (fdelim : ℕ) (ss : Bytes) (p t : Bytes) (j : ℕ)
    → drop j ss ≡ p ++ t
    → find_delim fdelim ss (length p) j ≡ j + length (key_of fdelim p)
unfolding find_delim key_of
find_delim-key_of fd ss [] t j h = omega arith
find_delim-key_of fd ss (c ∷ p) t j h =
    let rest = find_delim-key_of fd ss p t (j + 1) (drop_next ss j c (p ++ t) h) in
    rw (get_or-drop ss j c (p ++ t) h) (elim (Bool-cases (c == fd)) [
      | inl e ↦ rw (e) omega arith
      | inr e ↦ rw (e) omega (arith, rest)
    ])

-- A piece is a key, the delimiter and a value, or a key alone.
pub key_of-cases :
    (fdelim : ℕ) (p : Bytes)
    → (p ≡ key_of fdelim p ++ fdelim ∷ value_of fdelim p)
      ⊎ ((p ≡ key_of fdelim p) × (value_of fdelim p ≡ []))
unfolding key_of value_of
key_of-cases fd [] = inr (refl, refl)
key_of-cases fd (c ∷ p) = elim (Bool-cases (c == fd)) [
  | inl e ↦ rw (e) (inl (ap (λ x. x ∷ p) (ground (arith, ==_iff c fd, e))))
  | inr e ↦ rw (e) (elim (key_of-cases fd p) [
    | inl h ↦ inl (ap (λ r. c ∷ r) h)
    | inr (h, g) ↦ inr (ap (λ r. c ∷ r) h, g)
  ])
]

unfoldable pub join : Bytes → List Bytes → List Bytes
join q [] = q ∷ []
join q (p ∷ ps) = (q ++ p) ∷ ps

pub join-grow_first :
    (q : Bytes) (c : ℕ) (ps : List Bytes) → join q (grow_first c ps) ≡ join (q ++ c ∷ []) ps
unfolding join
join-grow_first q c [] = refl
join-grow_first q c (p ∷ ps) = ap (λ r. r ∷ ps) (sym (append_assoc q (c ∷ []) p))

pub join-nil : (c : ℕ) (ps : List Bytes) → join [] (grow_first c ps) ≡ grow_first c ps
unfolding join
join-nil c [] = refl
join-nil c (p ∷ ps) = refl

pub join-pieces : (rdelim : ℕ) (t : Bytes) → join [] (pieces rdelim t) ≡ pieces rdelim t
unfolding join pieces
join-pieces rd [] = refl
join-pieces rd (c ∷ t) = elim (Bool-cases (c == rd)) [
  | inl e ↦ rw (e) refl
  | inr e ↦ rw (e) (join-nil c (pieces rd t))
]
