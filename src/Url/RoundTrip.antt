-- ===== src/Url/RoundTrip.antt =====
-- The decoder undoes the encoder, and the encoder's output is safe in a URL.
use mnapp.Shared.{
  ℕ, suc, ◌+◌, ◌*◌, ◌/◌, ◌%◌, ◌^◌, ◌≤◌, ◌<◌, ◌≡◌, ◌≢◌, refl, ap, ◌∙◌, Bool, true, inl, inr, some,
  [], ◌∷◌, ◌++◌, ◌&&◌, ◌||◌, leb, ◌==◌, arith, Bool-cases, Bytes, length, length-append, All,
  All-append,
}
use mnapp.Url.Decode.{http_urldecode}
use mnapp.Url.Encode.{http_urlencode_reserved}
use mnapp.Url.InPlace.{Outcome, decode_loop-Outcome}
use mnapp.Url.Spec.{
  digit, encoded_byte, encoded, decoded, decoded_plain, decoded_escape, cons_to, escape_to_lem,
  digit_value-digit,
}
use mnapp.Url.Table.{is_copied}
use mnapp.Url.Written.{IsByte, http_urlencode_reserved-encoded}

pub http_urldecode-decoded :
    (s tail : Bytes)
    → All (λ c. c ≢ 0) s
    → Outcome (decoded s) [] tail (length s) (http_urldecode (s ++ (0 ∷ tail)))
unfolding http_urldecode
http_urldecode-decoded s tail nz =
    decode_loop-Outcome (suc (length (s ++ (0 ∷ tail)))) s [] (s ++ (0 ∷ tail)) tail 0 (length s) 0
      0 (omega (arith, length-append s (0 ∷ tail))) nz refl (omega arith) refl refl

-- What may stand in the output of the encoder.
abbrev pub is_safe : ℕ → Bool
is_safe c = is_copied c || c == b'%' || leb b'0' c && leb c b'9'

encoded_byte-safe : (c : ℕ) → c < 256 → All (λ x. is_safe x ≡ true) (encoded_byte c)
encoded_byte-safe c h = ground arith

encoded-safe : (s : Bytes) → All IsByte s → All (λ x. is_safe x ≡ true) (encoded s)
unfolding encoded
encoded-safe [] _ = tt
encoded-safe (c ∷ s) (hc, hs) =
    All-append _ (encoded_byte c) (encoded s) (encoded_byte-safe c hc) (encoded-safe s hs)

safe-ne-zero : (s : Bytes) → All (λ x. is_safe x ≡ true) s → All (λ c. c ≢ 0) s
safe-ne-zero [] _ = tt
safe-ne-zero (c ∷ s) (h, hs) = ((λ e. ground arith), safe-ne-zero s hs)

decoded-encoded_byte :
    (c : ℕ) (t : Bytes) → c < 256 → decoded (encoded_byte c ++ t) ≡ cons_to c (decoded t)
decoded-encoded_byte c t h = elim (Bool-cases (is_copied c)) [
  | inl copied ↦ rw copied (decoded_plain c t (ground arith))
  | inr coded ↦ rw coded (
      decoded_escape _ _ t
      ∙ escape_to_lem (digit (c / 16)) (digit (c % 16)) (decoded t) (c / 16) (c % 16)
          (digit_value-digit (c / 16) (omega arith)) (digit_value-digit (c % 16) (omega arith))
      ∙ ap (λ (x : ℕ). cons_to x (decoded t)) (let e : c / 16 * 16 + c % 16 ≡ c = omega arith in e))
]

decoded-encoded : (s : Bytes) → All IsByte s → decoded (encoded s) ≡ some s
unfolding encoded
decoded-encoded [] _ = unfold decoded in refl
decoded-encoded (c ∷ s) (hc, hs) =
    decoded-encoded_byte c (encoded s) hc ∙ ap (cons_to c) (decoded-encoded s hs)

-- Text that was encoded is decoded, in place, to the text itself, whatever the allocator's block
-- held, where `unsigned int` can index the block.
pub urldecode-urlencode :
    (mem s : Bytes)
    → All IsByte s
    → length mem ≡ length s * 3 + 1
    → length s * 3 + 1 ≤ 2 ^ 32
    → (rest : Bytes) × ((http_urldecode (http_urlencode_reserved mem s)).memory ≡ s ++ rest)
      × ((http_urldecode (http_urlencode_reserved mem s)).end ≡ some (length s))
urldecode-urlencode mem s bytes size fits =
    let (tail, written, _) = http_urlencode_reserved-encoded mem s bytes size fits in
    let run = http_urldecode-decoded (encoded s) tail (safe-ne-zero _ (encoded-safe s bytes)) in
    let (rest, memory, _, end) = rw (decoded-encoded s bytes) at run in
    (rest ++ (0 ∷ tail), rw written memory, rw written (end ∙ ap some (omega arith)))
