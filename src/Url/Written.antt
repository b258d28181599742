-- ===== src/Url/Written.antt =====
-- `http_urlencode_reserved` writes what `encoded` says, and stays inside its block.
use mnapp.Shared.{
  ℕ, suc, ◌+◌, ◌*◌, ◌%◌, ◌^◌, ◌≤◌, ◌<◌, ◌≡◌, refl, sym, ap, ◌∙◌, inl, inr, [], ◌∷◌, ◌++◌,
  append_assoc, append-nil, arith, Bool-cases, Bytes, length, set, All, length-append, set-append,
}
use mnapp.Url.Encode.{Output, put, encode_step, encode_loop, http_urlencode_reserved}
use mnapp.Url.Spec.{encoded_byte, encoded}
use mnapp.Url.Table.{is_copied, is_unreserved-is_copied}

abbrev pub IsByte : ℕ → Type 0
IsByte c = c < 256

puts : Bytes → Output → Output
puts [] o = o
puts (c ∷ s) o = puts s (put c o)

puts-append : (s t : Bytes) (o : Output) → puts (s ++ t) o ≡ puts t (puts s o)
unfolding puts
puts-append [] t o = refl
puts-append (c ∷ s) t o = puts-append s t (put c o)

encode_step-puts : (c : ℕ) (o : Output) → c < 256 → encode_step c o ≡ puts (encoded_byte c) o
unfolding encode_step puts
encode_step-puts c o h =
    rw (is_unreserved-is_copied c h)
      (elim (Bool-cases (is_copied c)) [ inl copied ↦ rw copied | inr coded ↦ rw coded ])

encode_loop-puts : (s : Bytes) (o : Output) → All IsByte s → encode_loop s o ≡ puts (encoded s) o
unfolding encode_loop encoded
encode_loop-puts [] o _ = unfold puts in refl
encode_loop-puts (c ∷ s) o (hc, hs) =
    encode_loop-puts s (encode_step c o) hs
    ∙ ap (puts (encoded s)) (encode_step-puts c o hc)
    ∙ sym (puts-append (encoded_byte c) (encoded s) o)

-- Bytes written where there is room for them.
puts_lem :
    (s out w : Bytes) (j : ℕ)
    → length s < length w
    → length out + length w ≤ 2 ^ 32
    → j ≡ length out
    → (rest : Bytes) × (puts s (record { j = j; res = out ++ w })
        ≡ record { j = j + length s; res = (out ++ s) ++ rest })
      × (length rest + length s ≡ length w)
unfolding puts
puts_lem [] out w j lt le e =
    let sum : j ≡ j + 0 = omega arith in
    let same = sym (append-nil out) in
    (w, (λ i. record { j = sum i; res = same i ++ w }), omega arith)
puts_lem (c ∷ s) out [] j lt le e = absurd (omega arith)
puts_lem (c ∷ s) out (y ∷ w) j lt le e =
    let next : (j + 1) % 2 ^ 32 ≡ j + 1 = omega arith in
    let written = set-append out y w c j e ∙ sym (append_assoc out (c ∷ []) w) in
    let (rest, done, size) =
      puts_lem s (out ++ (c ∷ [])) w (j + 1) (omega arith)
        (omega (arith, length-append out (c ∷ []))) (omega (arith, length-append out (c ∷ []))) in
    let sum : j + 1 + length s ≡ j + suc (length s) = omega arith in
    let text = append_assoc out (c ∷ []) s in
    (
      rest,
      ap (puts s) (λ i. record { j = next i; res = written i })
          ∙ done
          ∙ (λ i. record { j = sum i; res = text i ++ rest }),
      omega arith,
    )

length-encoded_byte : (c : ℕ) → length (encoded_byte c) ≤ 3
length-encoded_byte c = ground arith

-- `sz * 3` bytes are enough for the code of `sz` bytes.
pub length-encoded : (s : Bytes) → length (encoded s) ≤ length s * 3
unfolding encoded
length-encoded [] = omega arith
length-encoded (c ∷ s) =
    omega
      (arith, length-encoded s, length-encoded_byte c, length-append (encoded_byte c) (encoded s))

-- The block that `http_urlencode_reserved` returns is the code of `s`, a NUL, and what the
-- allocator left behind them, for every block of `sz * 3 + 1` bytes that an index can reach.
pub http_urlencode_reserved-encoded :
    (mem s : Bytes)
    → All IsByte s
    → length mem ≡ length s * 3 + 1
    → length s * 3 + 1 ≤ 2 ^ 32
    → (rest : Bytes) × (http_urlencode_reserved mem s ≡ encoded s ++ (0 ∷ rest))
      × (length (encoded s) + length rest ≡ length s * 3)
unfolding http_urlencode_reserved
http_urlencode_reserved-encoded mem s bytes size fits =
    let (w, done, left) =
      puts_lem (encoded s) [] mem 0 (omega (arith, length-encoded s)) (omega arith) refl in
    terminated w (encode_loop-puts s (record { j = 0; res = mem }) bytes ∙ done) left
  where
    terminated :
        (w : Bytes)
        → encode_loop s (record { j = 0; res = mem })
          ≡ record { j = 0 + length (encoded s); res = encoded s ++ w }
        → length w + length (encoded s) ≡ length mem
        → (rest : Bytes) × (http_urlencode_reserved mem s ≡ encoded s ++ (0 ∷ rest))
          × (length (encoded s) + length rest ≡ length s * 3)
    terminated [] done left = absurd (omega (arith, length-encoded s))
    terminated (y ∷ w) done left = (
      w,
      ap (λ (o : Output). set o.res o.j 0) done
          ∙ set-append (encoded s) y w 0 (0 + length (encoded s)) (omega arith),
      omega arith,
    )
