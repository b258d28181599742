-- ===== src/Url/Encode.antt =====
-- src/mnhttp.c: `http_urlencode_reserved`.
use mnapp.Shared.{ℕ, ◌+◌, ◌/◌, ◌%◌, ◌^◌, [], ◌∷◌, if◌then◌else◌, Bytes, set}
use mnapp.Url.Spec.{digit}
use mnapp.Url.Table.{is_unreserved}

-- The variables of the loop: the index `j`, an `unsigned int`, and the block `res`.
pub record Output : Type 0 where
  pub j : ℕ
  pub res : Bytes

-- `*(res + j++) = c`
abbrev pub put : ℕ → Output → Output
put c o = record { j = (o.j + 1) % 2 ^ 32; res = set o.res o.j c }

-- One round of the loop: its body and the `++j` of its head.
unfoldable pub encode_step : ℕ → Output → Output
unfolding is_unreserved
encode_step c o =
    if is_unreserved c then put c o else put (digit (c % 16)) (put (digit (c / 16)) (put b'%' o))

unfoldable pub encode_loop : Bytes → Output → Output
encode_loop [] o = o
encode_loop (c ∷ s) o = encode_loop s (encode_step c o)

-- `mem` is the block that `malloc` returned, of `sz * 3 + 1` bytes with any contents. The result
-- is the block as the caller gets it.
unfoldable pub http_urlencode_reserved : Bytes → Bytes → Bytes
unfolding encode_step encode_loop
http_urlencode_reserved mem s =
    let o = encode_loop s (record { j = 0; res = mem }) in set o.res o.j 0
