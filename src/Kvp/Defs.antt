-- ===== src/Kvp/Defs.antt =====
-- src/mnhttp.c: the macros of `mnhttp_parse_qterms` and `mnhttp_parse_kvpbd`.
use mnapp.Shared.{
  ℕ, zero, suc, ◌+◌, ◌-◌, ltb, leb, ◌==◌, if◌then◌else◌, Bytes, get_or, drop, length,
}

-- What the code takes from mncommon, with `B` for strings and `W` for the hash.
pub record MnHash (B W : Type 0) : Type 0 where
  -- `bytes_new_from_str_len`
  pub new_from_str_len : Bytes → ℕ → B
  -- `bytes_new(1)` with its one byte set to NUL
  pub new_empty : B
  pub hash_set_item : B → B → W → W

-- The loop over `j` of `MNHTTP_PARSE_QTERMS_FIND_PAIR`, with `n` for `i1 - j`.
unfoldable pub find_delim : ℕ → Bytes → ℕ → ℕ → ℕ
find_delim fdelim ss zero j = j
find_delim fdelim ss (suc n) j =
    let rest = find_delim fdelim ss n (j + 1) in if get_or ss j 0 == fdelim then j else rest

-- The index `i0` and the hash.
pub record Pairs (W : Type 0) : Type 0 where
  pub i0 : ℕ
  pub hash : W

module _ {B W : Type 0} (lib : MnHash B W) (keydecode valdecode : B → B) (fdelim rdelim : ℕ) where
  open lib use {new_from_str_len, new_empty, hash_set_item}

  -- `MNHTTP_PARSE_QTERMS_FIND_PAIR`
  unfoldable pub find_pair : Bytes → ℕ → ℕ → W → W
  unfolding find_delim
  find_pair ss i0 i1 hash =
      let j = find_delim fdelim ss (i1 - i0) i0 in
      let key = new_from_str_len (drop i0 ss) (j - i0) in
      let j' = j + 1 in
      let value = if leb j' i1 then new_from_str_len (drop j' ss) (i1 - j') else new_empty in
      if ltb i0 j then hash_set_item (keydecode key) (valdecode value) hash else hash

  -- The loop over `i1`, with `n` for `BSZ(s) - i1`.
  unfoldable pub kvp_loop : Bytes → ℕ → ℕ → Pairs W → Pairs W
  unfolding find_pair
  kvp_loop ss zero i1 p = p
  kvp_loop ss (suc n) i1 p = kvp_loop ss n (i1 + 1) (
      if get_or ss i1 0 == rdelim
      then record { i0 = i1 + 1; hash = find_pair ss p.i0 i1 p.hash }
      else p)

  -- `MNHTTP_PARSE_KVP_BODY`, on the `BSZ(s)` bytes of `s`, which end in a NUL.
  unfoldable pub parse_kvp_body : Bytes → W → W
  unfolding kvp_loop
  parse_kvp_body ss hash =
      let p = kvp_loop ss (length ss) 0 (record { i0 = 0; hash = hash }) in
      find_pair ss p.i0 (length ss - 1) p.hash

-- `bytes_urldecode` and `bytes_brushdown` of mncommon work in place on a string.
abbrev pub mnhttp_parse_qterms : {B W : Type 0} → MnHash B W → (B → B) → Bytes → ℕ → ℕ → W → W
mnhttp_parse_qterms lib bytes_urldecode s fdelim rdelim hash =
    parse_kvp_body lib bytes_urldecode bytes_urldecode fdelim rdelim s hash

abbrev pub mnhttp_parse_kvpbd : {B W : Type 0} → MnHash B W → (B → B) → Bytes → ℕ → ℕ → W → W
mnhttp_parse_kvpbd lib bytes_brushdown s fdelim rdelim hash =
    parse_kvp_body lib bytes_brushdown bytes_brushdown fdelim rdelim s hash
