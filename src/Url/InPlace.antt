-- ===== src/Url/InPlace.antt =====
-- `http_urldecode` does in place what `decoded` says. The part `out` of the memory is written, the
-- next byte is read `k` bytes behind it.
use mnapp.Shared.{
  ℕ, zero, suc, ◌+◌, ◌*◌, ◌/◌, ◌%◌, ◌<◌, bit_or, ◌≡◌, ◌≢◌, ◌⊎◌, refl, sym, ap, ◌∙◌, true, false,
  Option, none, some, [], ◌∷◌, ◌++◌, append_assoc, append-nil, arith, ◌==◌, Bytes, Bool-cases, inl,
  inr, get_or, set, length, take, drop, All, length-append, passes, passes-at, ==_iff, length-take,
  length-drop, get_or-append, set-append, take-append-drop, Option-cases,
}
use mnapp.Url.Decode.{Decoded, fails, or_to, decode_loop}
use mnapp.Url.Spec.{
  digit_value, cons_to, escape_to, decoded, decoded_plain, digit_value-lt, escape_to_bad_hi,
  escape_to_bad_lo, escape_to_lem,
}

or_table : passes (λ x. bit_or (x / 16 * 16) (x % 16) == x) 256 ≡ true
unfolding passes
or_table = refl

bit_or_nibbles : (hi lo : ℕ) → hi < 16 → lo < 16 → bit_or (hi * 16) lo ≡ hi * 16 + lo
bit_or_nibbles hi lo p q =
    let all = passes-at _ 256 or_table (hi * 16 + lo) (omega arith) in
    let high : (hi * 16 + lo) / 16 ≡ hi = omega arith in
    let low : (hi * 16 + lo) % 16 ≡ lo = omega arith in rw (high, low) at ((==_iff _ _).0 all)

-- What a run promises, when it starts `k` bytes behind `out` on a text of which `n - k` bytes are
-- left, and the terminating NUL and `tail` follow.
abbrev pub Outcome : Option Bytes → Bytes → Bytes → ℕ → Decoded → Type 0
Outcome none out tail n r =
    (rest : Bytes) × (r.memory ≡ rest ++ (0 ∷ tail))
    × (length rest ≡ length out + n)
    × (r.end ≡ none)
Outcome (some d) out tail n r =
    (rest : Bytes) × (r.memory ≡ (out ++ d) ++ (rest ++ (0 ∷ tail)))
    × (length rest + length d ≡ n)
    × (r.end ≡ some (length out + length d))

cons_to-Outcome :
    (o : Option Bytes) (v : ℕ) (out tail : Bytes) (n : ℕ) (r : Decoded)
    → Outcome o (out ++ (v ∷ [])) tail n r
    → Outcome (cons_to v o) out tail (suc n) r
cons_to-Outcome none v out tail n r (rest, m, len, e) =
    (rest, m, omega (arith, length-append out (v ∷ [])), e)
cons_to-Outcome (some d) v out tail n r (rest, m, len, e) = (
  rest,
  m ∙ ap (λ (x : Bytes). x ++ (rest ++ (0 ∷ tail))) (append_assoc out (v ∷ []) d),
  omega arith,
  e ∙ ap some (omega (arith, length-append out (v ∷ []))),
)

-- A read `i` bytes behind the place that `src` points to.
read_behind :
    (out w : Bytes) (k i j : ℕ)
    → j ≡ length out + k + i
    → get_or (out ++ w) j 0 ≡ get_or (drop k w) i 0
read_behind [] w zero i j e = let e' : j ≡ i = omega arith in rw e'
read_behind [] [] (suc k) i j e = refl
read_behind [] (x ∷ w) (suc k) i zero e = absurd (omega arith)
read_behind [] (x ∷ w) (suc k) i (suc j) e = read_behind [] w k i j (omega arith)
read_behind (x ∷ out) w k i zero e = absurd (omega arith)
read_behind (x ∷ out) w k i (suc j) e = read_behind out w k i j (omega arith)

drop-nil : (k : ℕ) → drop {A = ℕ} k [] ≡ []
drop-nil zero = refl
drop-nil (suc k) = refl

drop-tail : (k : ℕ) (y c : ℕ) (w t : Bytes) → drop k (y ∷ w) ≡ c ∷ t → drop k w ≡ t
drop-tail zero y c w t e = cc
drop-tail (suc k) y c [] t e = cc (drop-nil k)
drop-tail (suc k) y c (z ∷ w) t e = drop-tail k z c w t e

-- A write at the end of `out`.
write_behind :
    (out w : Bytes) (y v dst : ℕ)
    → dst ≡ length out
    → set (out ++ (y ∷ w)) dst v ≡ (out ++ (v ∷ [])) ++ w
write_behind out w y v dst e = set-append out y w v dst e ∙ sym (append_assoc out (v ∷ []) w)

-- One round of the loop, by its branches.
module _ (f : ℕ) (m : Bytes) (src dst : ℕ) where
  decode_loop_end :
      get_or m src 0 ≡ 0 → decode_loop (suc f) m src dst ≡ record { memory = m; end = some dst }
  unfolding decode_loop
  decode_loop_end e = ground arith

  decode_loop_plain :
      (c : ℕ)
      → get_or m src 0 ≡ c
      → c ≢ 0
      → (c == b'%') ≡ false
      → decode_loop (suc f) m src dst ≡ decode_loop f (set m dst c) (src + 1) (dst + 1)
  unfolding decode_loop
  decode_loop_plain c e nz p = ground arith

  decode_loop_bad_hi :
      get_or m src 0 ≡ b'%'
      → digit_value (get_or m (src + 1) 0) ≡ none
      → decode_loop (suc f) m src dst ≡ fails m
  unfolding decode_loop
  decode_loop_bad_hi e h = rw (e, decode_loop) (rw h)

  decode_loop_bad_lo :
      (hi : ℕ)
      → get_or m src 0 ≡ b'%'
      → digit_value (get_or m (src + 1) 0) ≡ some hi
      → digit_value (get_or (set m dst (hi * 16)) (src + 2) 0) ≡ none
      → decode_loop (suc f) m src dst ≡ fails (set m dst (hi * 16))
  unfolding decode_loop
  decode_loop_bad_lo hi e h l = rw (e, decode_loop) (rw h (rw l))

  decode_loop_escape :
      (hi lo : ℕ)
      → get_or m src 0 ≡ b'%'
      → digit_value (get_or m (src + 1) 0) ≡ some hi
      → digit_value (get_or (set m dst (hi * 16)) (src + 2) 0) ≡ some lo
      → decode_loop (suc f) m src dst
        ≡ decode_loop f (or_to (set m dst (hi * 16)) dst lo) (src + 3) (dst + 1)
  unfolding decode_loop
  decode_loop_escape hi lo e h l = rw (e, decode_loop) (rw h (rw l))

-- Where a run fails, the memory before the NUL has its old size, and what follows is untouched.
fails-Outcome :
    (out w tail : Bytes) (n : ℕ) → drop n w ≡ 0 ∷ tail → Outcome none out tail n (fails (out ++ w))
fails-Outcome out w tail n h = (
  out ++ take n w,
  ap (◌++◌ out) (sym (take-append-drop n w) ∙ ap (◌++◌ (take n w)) h)
      ∙ sym (append_assoc out (take n w) (0 ∷ tail)),
  omega (arith, length-append out (take n w), length-take n w, length-drop n w, ap length h),
  refl,
)

drop_text : (k n : ℕ) (w s t : Bytes) → drop k w ≡ s ++ t → n ≡ k + length s → drop n w ≡ t
drop_text k n w [] t h e = let e' : n ≡ k = omega arith in rw e' h
drop_text k n [] (c ∷ s) t h e = absurd (omega (arith, ap length (sym (drop-nil k) ∙ h)))
drop_text zero zero (y ∷ w) (c ∷ s) t h e = absurd (omega arith)
drop_text zero (suc n) (y ∷ w) (c ∷ s) t h e = drop_text zero n w s t (cc) (omega arith)
drop_text (suc k) zero (y ∷ w) (c ∷ s) t h e = absurd (omega arith)
drop_text (suc k) (suc n) (y ∷ w) (c ∷ s) t h e = drop_text k n w (c ∷ s) t h (omega arith)

module _ (f : ℕ) (tail out : Bytes) (y : ℕ) (w : Bytes) (src dst k : ℕ) (ed : dst ≡ length out)
    (es : src ≡ length out + k) where
  plain-Outcome :
      (c n : ℕ) (s t : Bytes)
      → c ≢ 0
      → (c == b'%') ≡ false
      → drop k (y ∷ w) ≡ c ∷ t
      → Outcome
          (decoded s)
          (out ++ (c ∷ []))
          tail
          n
          (decode_loop f ((out ++ (c ∷ [])) ++ w) (src + 1) (dst + 1))
      → Outcome (decoded (c ∷ s)) out tail (suc n) (decode_loop (suc f) (out ++ (y ∷ w)) src dst)
  plain-Outcome c n s t nz np h ih =
      let read =
        read_behind out (y ∷ w) k 0 src (omega arith) ∙ ap (λ (x : Bytes). get_or x 0 0) h in
      rw
        (
          decode_loop_plain f _ src dst c read nz np,
          write_behind out w y c dst ed,
          decoded_plain c s np,
        )
        (cons_to-Outcome (decoded s) c out tail n _ ih)

  -- The two bytes behind a `%`, read while the high digit stands at `dst`.
  module _ (h l : ℕ) (t : Bytes) (text : drop k (y ∷ w) ≡ b'%' ∷ t) where
    at_percent : get_or (out ++ (y ∷ w)) src 0 ≡ b'%'
    at_percent =
        read_behind out (y ∷ w) k 0 src (omega arith) ∙ ap (λ (x : Bytes). get_or x 0 0) text

    at_hi : get_or t 0 0 ≡ h → get_or (out ++ (y ∷ w)) (src + 1) 0 ≡ h
    at_hi e =
        read_behind out (y ∷ w) k 1 (src + 1) (omega arith)
        ∙ ap (λ (x : Bytes). get_or x 1 0) text
        ∙ e

    at_lo : (v : ℕ) → get_or t 1 0 ≡ l → get_or (set (out ++ (y ∷ w)) dst v) (src + 2) 0 ≡ l
    at_lo v e = rw (write_behind out w y v dst ed) (
        read_behind (out ++ (v ∷ [])) w k 1 (src + 2) (omega (arith, length-append out (v ∷ [])))
        ∙ ap (λ (x : Bytes). get_or x 1 0) (drop-tail k y b'%' w t text)
        ∙ e)

    bad-Outcome :
        (n : ℕ)
        → get_or t 0 0 ≡ h
        → (digit_value h ≡ none) ⊎ ((get_or t 1 0 ≡ l) × (digit_value l ≡ none))
        → drop n w ≡ 0 ∷ tail
        → Outcome none out tail (suc n) (decode_loop (suc f) (out ++ (y ∷ w)) src dst)
    bad-Outcome n eh (inl bad) end =
        rw (decode_loop_bad_hi f _ src dst at_percent (rw (at_hi eh) bad))
          (fails-Outcome out (y ∷ w) tail (suc n) end)
    bad-Outcome n eh (inr (el, bad)) end = elim (Option-cases (digit_value h)) [
      | inl none_h ↦
          rw (decode_loop_bad_hi f _ src dst at_percent (rw (at_hi eh) none_h))
            (fails-Outcome out (y ∷ w) tail (suc n) end)
      | inr (hi, hh) ↦
          rw
            (
              decode_loop_bad_lo f _ src dst hi at_percent (rw (at_hi eh) hh)
                  (rw (at_lo (hi * 16) el) bad),
              write_behind out w y (hi * 16) dst ed,
            )
            (cons_to-Outcome none (hi * 16) out tail n _
              (fails-Outcome (out ++ (hi * 16 ∷ [])) w tail n end))
    ]

    escape-Outcome :
        (n : ℕ) (s : Bytes)
        → get_or t 0 0 ≡ h
        → get_or t 1 0 ≡ l
        → drop n w ≡ 0 ∷ tail
        → ((v : ℕ)
            → Outcome
                (decoded s)
                (out ++ (v ∷ []))
                tail
                n
                (decode_loop f ((out ++ (v ∷ [])) ++ w) (src + 3) (dst + 1)))
        → Outcome
            (escape_to h l (decoded s))
            out
            tail
            (suc n)
            (decode_loop (suc f) (out ++ (y ∷ w)) src dst)
    escape-Outcome n s eh el end ih = elim (Option-cases (digit_value h)) [
      | inl bad ↦ rw (escape_to_bad_hi h l (decoded s) bad) (bad-Outcome n eh (inl bad) end)
      | inr (hi, hh) ↦ elim (Option-cases (digit_value l)) [
        | inl bad ↦ rw (escape_to_bad_lo h l (decoded s) bad) (bad-Outcome n eh (inr (el, bad)) end)
        | inr (lo, hl) ↦
            rw
              (
                escape_to_lem h l (decoded s) hi lo hh hl,
                decode_loop_escape f _ src dst hi lo at_percent (rw (at_hi eh) hh)
                    (rw (at_lo (hi * 16) el) hl),
                written hi lo (digit_value-lt h hh) (digit_value-lt l hl),
              )
              (cons_to-Outcome (decoded s) (hi * 16 + lo) out tail n _ (ih (hi * 16 + lo)))
      ]
    ]
      where
        written :
            (hi lo : ℕ)
            → hi < 16
            → lo < 16
            → or_to (set (out ++ (y ∷ w)) dst (hi * 16)) dst lo
              ≡ (out ++ ((hi * 16 + lo) ∷ [])) ++ w
        written hi lo p q =
            rw
              (
                set-append out y w (hi * 16) dst ed,
                get_or-append out (hi * 16) w 0 dst ed,
                bit_or_nibbles hi lo p q,
              )
              (write_behind out w (hi * 16) (hi * 16 + lo) dst ed)

-- The loop does what `decoded` says of the text that is left, at this much fuel.
abbrev Runs : ℕ → Type 0
Runs f =
    (s out w tail : Bytes) (k n src dst : ℕ)
    → length s < f
    → All (λ c. c ≢ 0) s
    → drop k w ≡ s ++ (0 ∷ tail)
    → n ≡ k + length s
    → src ≡ length out + k
    → dst ≡ length out
    → Outcome (decoded s) out tail n (decode_loop f (out ++ w) src dst)

percent-Outcome :
    (f : ℕ) (s out : Bytes) (y : ℕ) (w tail : Bytes) (k src dst : ℕ)
    → Runs f
    → length s < f
    → All (λ c. c ≢ 0) s
    → drop k (y ∷ w) ≡ b'%' ∷ (s ++ (0 ∷ tail))
    → src ≡ length out + k
    → dst ≡ length out
    → Outcome
        (decoded (b'%' ∷ s))
        out
        tail
        (suc (k + length s))
        (decode_loop (suc f) (out ++ (y ∷ w)) src dst)
unfolding decoded
percent-Outcome f [] out y w tail k src dst ih lf nz text es ed =
    bad-Outcome f tail out y w src dst k ed es 0 0 _ text _ refl (inl refl)
      (drop_text k _ w [] _ (drop-tail k y b'%' w _ text) refl)
percent-Outcome f (h ∷ []) out y w tail k src dst ih lf nz text es ed =
    bad-Outcome f tail out y w src dst k ed es h 0 _ text _ refl (inr (refl, refl))
      (drop_text k _ w (h ∷ []) _ (drop-tail k y b'%' w _ text) refl)
percent-Outcome f (h ∷ l ∷ s) out y w tail k src dst ih lf (nh, (nl, nz)) text es ed =
    let behind = drop-tail k y b'%' w _ text in
    escape-Outcome f tail out y w src dst k ed es h l _ text (k + length (h ∷ l ∷ s)) s refl refl
      (drop_text k _ w (h ∷ l ∷ s) _ behind refl)
      (λ v.
        ih s (out ++ (v ∷ [])) w tail (k + 2) (k + length (h ∷ l ∷ s)) (src + 3) (dst + 1)
          (omega arith) nz (drop_text k (k + 2) w (h ∷ l ∷ []) _ behind refl) (omega arith)
          (omega (arith, length-append out (v ∷ []))) (omega (arith, length-append out (v ∷ []))))

end-Outcome :
    (f : ℕ) (out w tail : Bytes) (k src dst : ℕ)
    → drop k w ≡ 0 ∷ tail
    → src ≡ length out + k
    → dst ≡ length out
    → Outcome (decoded []) out tail k (decode_loop (suc f) (out ++ w) src dst)
unfolding decoded
end-Outcome f out w tail k src dst text es ed =
    let read = read_behind out w k 0 src (omega arith) ∙ ap (λ (x : Bytes). get_or x 0 0) text in
    rw (decode_loop_end f (out ++ w) src dst read) (
      take k w,
      ap (◌++◌ out) (sym (take-append-drop k w) ∙ ap (◌++◌ (take k w)) text)
          ∙ ap (λ (x : Bytes). x ++ (take k w ++ (0 ∷ tail))) (sym (append-nil out)),
      omega (arith, length-take k w, length-drop k w, ap length text),
      ap some (omega arith),
    )

pub decode_loop-Outcome : (f : ℕ) → Runs f
decode_loop-Outcome zero s out w tail k n src dst lf nz text en es ed = absurd (omega arith)
decode_loop-Outcome (suc f) [] out w tail k n src dst lf nz text en es ed =
    let en' : n ≡ k = omega arith in rw en' (end-Outcome f out w tail k src dst text es ed)
decode_loop-Outcome (suc f) (c ∷ s) out [] tail k n src dst lf nz text en es ed =
    absurd (omega (arith, ap length (sym (drop-nil k) ∙ text)))
decode_loop-Outcome (suc f) (c ∷ s) out (y ∷ w) tail k n src dst lf (nc, nz) text en es ed =
    let en' : n ≡ suc (k + length s) = omega arith in
    elim (Bool-cases (c == b'%')) [
      | inl percent ↦
          let is : c ≡ b'%' = (==_iff c b'%').0 percent in
          rw (en', is)
            (percent-Outcome f s out y w tail k src dst (decode_loop-Outcome f) (omega arith) nz
              (rw is at text) es ed)
      | inr plain ↦ rw en' (
          plain-Outcome f tail out y w src dst k ed es c (k + length s) s _ nc plain text (
            decode_loop-Outcome f s (out ++ (c ∷ [])) w tail k (k + length s) (src + 1) (dst + 1)
              (omega arith) nz (drop-tail k y c w _ text) refl
              (omega (arith, length-append out (c ∷ [])))
              (omega (arith, length-append out (c ∷ [])))))
    ]
