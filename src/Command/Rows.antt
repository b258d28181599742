-- ===== src/Command/Rows.antt =====
-- The lines of a description hold its text.
use mnapp.Command.Help.{Row, Round, fill_row, is_dashed, cut_row, help_round, help_next, help_rows}
use mnapp.Command.Wrap.{size_t_sub, mncommand_find_ncopy, mncommand_find_ncopy-IsCut}
use mnapp.Http.Strtol.{isspace, spaces}
use mathlib.Core.Path.{subst}
use mnapp.Shared.{
  if_elim, ap, append-nil, ℕ, zero, suc, ◌+◌, ◌-◌, ◌^◌, ◌≤◌, ◌<◌, ◌≡◌, refl, sym, ◌∙◌, Bool, true,
  false, Option, none, some, List, [], ◌∷◌, ◌++◌, if◌then◌else◌, ltb, leb, arith, Bytes, length,
  get_or, take, drop, min, All, take-drop-drop, get_or-drop, Bool-cases, Option-cases, ◌>>=◌,
  length-take, inl, inr,
}

-- The bytes of a text that are no spaces.
abbrev pub visible : Bytes → Bytes
visible [] = []
visible (c ∷ s) = if isspace c then visible s else c ∷ visible s

-- The texts of the lines, one behind the other.
abbrev pub joined : List Row → Bytes
joined [] = []
joined (r ∷ rows) = r.text ++ joined rows

-- No two spaces stand side by side.
abbrev pub IsSpaced : Bytes → Type 0
IsSpaced s = (i : ℕ) → isspace (get_or s i 0) ≡ true → isspace (get_or s (suc i) 0) ≡ false

visible-append : (s t : Bytes) → visible (s ++ t) ≡ visible s ++ visible t
visible-append [] t = refl
visible-append (c ∷ s) t = ground (arith, visible-append s t)

visible-take-spaces : (s : Bytes) → visible (take (spaces s) s) ≡ []
unfolding spaces
visible-take-spaces [] = refl
visible-take-spaces (c ∷ s) = elim (Bool-cases (isspace c)) [
  | inl e ↦ rw (e, spaces) (rw (e) (visible-take-spaces s))
  | inr e ↦ rw (e, spaces) refl
]

spaces-le :
    (s : Bytes) → (isspace (get_or s 0 0) ≡ true → isspace (get_or s 1 0) ≡ false) → spaces s ≤ 1
unfolding spaces
spaces-le [] h = omega arith
spaces-le (c ∷ []) h = ground arith
spaces-le (c ∷ d ∷ s) h = ground arith

size_t_sub_small : (a b : ℕ) → a < 2 ^ 63 → b ≤ a → size_t_sub a b ≡ a - b
size_t_sub_small a b small le = omega arith

-- A round with text left: it ends further on, and its line is what it passes, but for spaces.
record IsRow (s : Bytes) (nhead : ℕ) (r : Round) : Type 0 where
  position : r.nhead + r.ntail ≡ length s
  moves : nhead < r.nhead
  fits : length r.row.text ≤ 53
  keeps : visible r.row.text ++ visible (drop r.nhead s) ≡ visible (drop nhead s)

fill_row_lem :
    (s : Bytes) (head n tail : ℕ) (dashed : Bool)
    → head + tail ≡ length s
    → length s < 2 ^ 63
    → n ≤ tail
    → n ≤ 53
    → 0 < head + n
    → fill_row s head n tail dashed
      ≡ some (record {
        row = record { text = take n (drop head s); dashed = dashed };
        nhead = head + n;
        ntail = tail - n;
      })
unfolding fill_row
fill_row_lem s head n tail dashed e small le short some_read =
    let left = size_t_sub_small tail n (omega arith) le in
    let inside : leb (head + n) (length s) ≡ true = ground arith in
    let positive : ltb 0 (head + n) ≡ true = ground arith in
    let room : ltb (if dashed then n + 1 else n) 55 ≡ true = ground arith in
    rw (left, inside, positive, room) refl

-- What is passed is the spaces and the line.
visible-split :
    (s : Bytes) (i n j : ℕ)
    → j ≡ i + spaces (drop i s) + n
    → visible (take n (drop (i + spaces (drop i s)) s)) ++ visible (drop j s) ≡ visible (drop i s)
visible-split s i n j e =
    let k = spaces (drop i s) in
    sym (visible-append (take n (drop (i + k) s)) (drop j s))
    ∙ ap visible (take-drop-drop (i + k) n j s e)
    ∙ ap (λ t. t ++ visible (drop (i + k) s)) (sym (visible-take-spaces (drop i s)))
    ∙ sym (visible-append (take k (drop i s)) (drop (i + k) s))
    ∙ ap visible (take-drop-drop i k (i + k) s refl)

cut_row-IsRow :
    (s : Bytes) (nhead ntail ncopy : ℕ)
    → nhead + ntail ≡ length s
    → length s < 2 ^ 63
    → spaces (drop nhead s) ≤ ncopy
    → 0 < ncopy
    → ncopy ≤ min ntail 53
    → (r : Round) × (cut_row s nhead ntail ncopy (spaces (drop nhead s)) ≡ some r) × IsRow s nhead r
unfolding cut_row
cut_row-IsRow s nhead ntail ncopy e small le pos_ below =
    let k = spaces (drop nhead s) in
    let n = ncopy - k in
    let head = nhead + k in
    let dashed = is_dashed s (head + n) in
    (
      record {
        row = record { text = take n (drop head s); dashed = dashed };
        nhead = head + n;
        ntail = ntail - k - n;
      },
      rw
          (
            size_t_sub_small ncopy k (omega arith) le,
            size_t_sub_small ntail k (omega arith) (omega arith),
          )
          (fill_row_lem s head n (ntail - k) dashed (omega arith) small (omega arith) (omega arith)
            (omega arith)),
      record {
        position = omega arith;
        moves = omega arith;
        fits = omega (arith, length-take n (drop head s));
        keeps = visible-split s nhead n (head + n) refl;
      },
    )

help_round-IsRow :
    (s : Bytes) (nhead ntail : ℕ)
    → nhead + ntail ≡ length s
    → length s < 2 ^ 63
    → IsSpaced s
    → 0 < ntail
    → (r : Round) × (help_round s nhead ntail ≡ some r) × IsRow s nhead r
unfolding help_round
help_round-IsRow s nhead ntail e small spaced some_left =
    let cut = mncommand_find_ncopy-IsCut s nhead ntail 55 (omega arith) (omega arith) in
    let here : get_or (drop nhead s) 0 0 ≡ get_or s nhead 0 =
      get_or-drop nhead 0 nhead s 0 (omega arith) in
    let next : get_or (drop nhead s) 1 0 ≡ get_or s (suc nhead) 0 =
      get_or-drop nhead 1 (suc nhead) s 0 (omega arith) in
    let gap =
      spaces-le (drop nhead s) (λ h. ap isspace next ∙ spaced nhead (ap isspace (sym here) ∙ h)) in
    let taken = cut.progress (omega arith) in
    cut_row-IsRow s nhead ntail (mncommand_find_ncopy s nhead ntail 55) e small
      (omega (arith, gap, taken)) taken (omega (arith, cut.fits))

drop-all : (n : ℕ) (s : Bytes) → length s ≤ n → drop n s ≡ []
drop-all zero [] h = refl
drop-all zero (c ∷ s) h = absurd (omega (arith, h))
drop-all (suc n) [] h = refl
drop-all (suc n) (c ∷ s) h = drop-all n s (omega (arith, h))

module _ (s : Bytes) (small : length s < 2 ^ 63) (spaced : IsSpaced s) where
  -- Lines that hold the text from `nhead` on.
  Holds : ℕ → Option (List Row) → Type 0
  Holds nhead none = ⊥
  Holds nhead (some rows) =
      (visible (joined rows) ≡ visible (drop nhead s)) × All (λ (r : Row). length r.text ≤ 53) rows

  Holds-next :
      (nhead : ℕ) (r : Round) (rest : Option (List Row))
      → IsRow s nhead r
      → Holds r.nhead rest
      → Holds nhead (rest >>= λ rows. some (r.row ∷ rows))
  unfolding Holds
  Holds-next nhead r none row h = h
  Holds-next nhead r (some rows) row (same, fits) = (
    visible-append r.row.text (joined rows) ∙ ap (λ t. visible r.row.text ++ t) same ∙ row.keeps,
    (row.fits, fits),
  )

  Holds-last :
      (nhead : ℕ) (r : Round) → IsRow s nhead r → r.ntail ≡ 0 → Holds nhead (some (r.row ∷ []))
  unfolding Holds
  Holds-last nhead r row end =
      let all = drop-all r.nhead s (omega (arith, row.position)) in
      (
        ap visible (append-nil r.row.text)
            ∙ sym (append-nil (visible r.row.text))
            ∙ ap (λ t. visible r.row.text ++ visible t) (sym all)
            ∙ row.keeps,
        (row.fits, tt),
      )

  help_rows-Holds :
      (fuel nhead ntail : ℕ)
      → nhead + ntail ≡ length s
      → 0 < ntail
      → ntail ≤ fuel
      → Holds nhead (help_rows fuel s nhead ntail)
  unfolding help_rows help_next
  help_rows-Holds zero nhead ntail e some_left enough = absurd (omega arith)
  help_rows-Holds (suc fuel) nhead ntail e some_left enough =
      let (r, made, row) = help_round-IsRow s nhead ntail e small spaced some_left in
      rw (made, help_next)
        (if_elim (Holds nhead) (ltb 0 r.ntail) _ _
          (λ t. Holds-next nhead r (help_rows fuel s r.nhead r.ntail) row (
            help_rows-Holds fuel r.nhead r.ntail row.position (ground (arith, t))
              (omega (arith, row.position, row.moves))))
          (λ t. Holds-last nhead r row (ground (arith, t))))

-- A description that is not empty and has no two spaces side by side is cut to lines that fit the
-- buffer with a dash and a NUL, in as many rounds as it has bytes, and the lines hold its text in its
-- order, but for spaces.
pub help_rows-visible :
    (s : Bytes) (fuel : ℕ)
    → 0 < length s
    → length s < 2 ^ 63
    → IsSpaced s
    → length s ≤ fuel
    → (rows : List Row) × (help_rows fuel s 0 (length s) ≡ some rows)
      × (visible (joined rows) ≡ visible s)
      × All (λ (r : Row). length r.text ≤ 53) rows
unfolding Holds
help_rows-visible s fuel some_text small spaced enough =
    elim (Option-cases (help_rows fuel s 0 (length s))) [
      | inl e ↦ absurd (subst (Holds s small spaced 0) e holds)
      | inr (rows, e) ↦
          let (same, fits) = subst (Holds s small spaced 0) e holds in (rows, e, same, fits)
    ]
  where
    holds : Holds s small spaced 0 (help_rows fuel s 0 (length s))
    holds = help_rows-Holds s small spaced fuel 0 (length s) (omega arith) some_text enough
