-- ===== src/Command/Wrap.antt =====
-- src/mncommand.c: `mncommand_find_ncopy`, the cut of a line of the help text.
use mnapp.Http.Strtol.{isspace}
use mnapp.Shared.{
  ℕ, zero, suc, ◌+◌, ◌-◌, ◌%◌, ◌^◌, ◌≤◌, ◌<◌, ◌≡◌, ◌⊎◌, inl, inr, refl, true, if◌then◌else◌, ◌==◌,
  Bytes, get_or, min, arith, Bool-cases,
}

-- The loop over `n`; it leaves `ncopy` alone if it finds no space.
unfoldable pub find_space : Bytes → ℕ → ℕ → ℕ → ℕ
find_space s nhead ncopy zero = ncopy
find_space s nhead ncopy (suc n) =
    let rest = find_space s nhead ncopy n in
    if isspace (get_or s (nhead + suc n) 0) then suc n else rest

-- `size_t` has 64 bits
abbrev pub size_t_sub : ℕ → ℕ → ℕ
size_t_sub a b = (a + (2 ^ 64 - b)) % 2 ^ 64

unfoldable pub mncommand_find_ncopy : Bytes → ℕ → ℕ → ℕ → ℕ
unfolding find_space
mncommand_find_ncopy s nhead ntail bufsz =
    let room = size_t_sub (size_t_sub bufsz 1) 1 in
    let ncopy = min ntail room in
    let cut = find_space s nhead ncopy ncopy in if ncopy == size_t_sub bufsz 2 then cut else ncopy

-- What the cut promises: a length up to `bound`, which is all of `bound` or ends at a space.
pub record IsCut (s : Bytes) (nhead bound n : ℕ) : Type 0 where
  pub fits : n ≤ bound
  pub progress : 0 < bound → 0 < n
  pub whole_or_space : (n ≡ bound) ⊎ (isspace (get_or s (nhead + n) 0) ≡ true)

find_space-IsCut :
    (s : Bytes) (nhead bound k : ℕ) → k ≤ bound → IsCut s nhead bound (find_space s nhead bound k)
unfolding find_space
find_space-IsCut s nhead bound zero h = record {
  fits = omega arith;
  progress = λ p. p;
  whole_or_space = inl refl;
}
find_space-IsCut s nhead bound (suc k) h =
    elim (Bool-cases (isspace (get_or s (nhead + suc k) 0))) [
      | inl e ↦ rw (e) record { fits = h; progress = λ p. omega arith; whole_or_space = inr e }
      | inr e ↦ rw (e) (find_space-IsCut s nhead bound k (omega arith))
    ]

size_t_sub_small : (a b : ℕ) → a < 2 ^ 64 → 0 < b → b ≤ a → size_t_sub a b ≡ a - b
size_t_sub_small a b h p g = omega arith

-- In a buffer of at least two bytes, the part taken fits with the dash and the NUL, is not empty
-- while there is text and room, and takes all of the smaller of text and room or ends at a space.
pub mncommand_find_ncopy-IsCut :
    (s : Bytes) (nhead ntail bufsz : ℕ)
    → 2 ≤ bufsz
    → bufsz < 2 ^ 64
    → IsCut s nhead (min ntail (bufsz - 2)) (mncommand_find_ncopy s nhead ntail bufsz)
unfolding mncommand_find_ncopy
mncommand_find_ncopy-IsCut s nhead ntail bufsz h g =
    let room : size_t_sub (size_t_sub bufsz 1) 1 ≡ bufsz - 2 = omega arith in
    let test : size_t_sub bufsz 2 ≡ bufsz - 2 = omega arith in
    let bound = min ntail (bufsz - 2) in
    rw (room, test)
      (elim (Bool-cases (bound == bufsz - 2)) [
        | inl e ↦ rw (e) (find_space-IsCut s nhead bound bound (omega arith))
        | inr e ↦ rw (e) record { fits = omega arith; progress = λ p. p; whole_or_space = inl refl }
      ])
