-- ===== src/Url/Decode.antt =====
-- src/mnhttp.c: `http_urldecode`, which works in place.
use mnapp.Shared.{
  ℕ, zero, suc, ◌+◌, ◌*◌, bit_or, Option, none, some, ◌==◌, if◌then◌else◌, Bytes, get_or, length,
  set,
}
use mnapp.Url.Spec.{digit_value}

-- The memory behind the argument, and what is returned: `dst` as an offset, or NULL.
pub record Decoded : Type 0 where
  pub memory : Bytes
  pub end : Option ℕ

abbrev pub fails : Bytes → Decoded
fails m = record { memory = m; end = none }

-- `*dst |= v`
abbrev pub or_to : Bytes → ℕ → ℕ → Bytes
or_to m dst v = set m dst (bit_or (get_or m dst 0) v)

-- The loop on fuel, over `*s`, `src` and `dst`. Each pointer is an offset into the memory.
unfoldable pub decode_loop : ℕ → Bytes → ℕ → ℕ → Decoded
decode_loop zero m src dst = fails m
decode_loop (suc fuel) m src dst =
    let c = get_or m src 0 in
    let escaped : Decoded = elim (digit_value (get_or m (src + 1) 0)) [
      | none ↦ fails m
      | some hi ↦
          let m' = set m dst (hi * 16) in
          elim (digit_value (get_or m' (src + 2) 0)) [
            | none ↦ fails m'
            | some lo ↦ decode_loop fuel (or_to m' dst lo) (src + 3) (dst + 1)
          ]
    ] in
    let plain = decode_loop fuel (set m dst c) (src + 1) (dst + 1) in
    if c == 0 then record { memory = m; end = some dst } else if c == b'%' then escaped else plain

-- The fuel is the size of the memory, which holds the terminating NUL.
unfoldable pub http_urldecode : Bytes → Decoded
unfolding decode_loop
http_urldecode m = decode_loop (suc (length m)) m 0 0
