-- ===== src/Kvp/Parse.antt =====
-- `mnhttp_parse_qterms` and `mnhttp_parse_kvpbd` against what they promise.
use mnapp.Kvp.Defs.{MnHash, Pairs, find_pair, kvp_loop, parse_kvp_body}
use mnapp.Kvp.Spec.{pieces, key_of, value_of, store_pair, store_piece, store_pieces}
use mnapp.Shared.{
  ℕ, suc, ◌+◌, ◌-◌, ◌≡◌, ◌≢◌, inl, inr, refl, ap, sym, ◌∙◌, true, false, List, [], ◌∷◌, ◌++◌, arith,
  ltb, leb, ◌==◌, if◌then◌else◌, Bool-cases, Bytes, get_or, length, length-append, drop,
  append_assoc, append-nil,
}
use mnapp.Kvp.Cut.{
  get_or-drop, drop_next, drop-length, find_delim-key_of, key_of-cases, join, join-grow_first,
  join-pieces,
}

module _ {B W : Type 0} (lib : MnHash B W) (keydecode valdecode : B → B) (fdelim rdelim : ℕ)
    (same_prefix : (t u : Bytes)
      → lib.new_from_str_len (t ++ u) (length t) ≡ lib.new_from_str_len t (length t))
    (empty_string : lib.new_empty ≡ lib.new_from_str_len [] 0) where
  stored : Bytes → W → W
  stored = store_piece lib keydecode valdecode fdelim

  key-string :
      (ss k u : Bytes) (i0 : ℕ)
      → drop i0 ss ≡ k ++ u
      → lib.new_from_str_len (drop i0 ss) (i0 + length k - i0) ≡ lib.new_from_str_len k (length k)
  key-string ss k u i0 h =
      let e : i0 + length k - i0 ≡ length k = omega arith in rw (e, h) (same_prefix k u)

  -- The value that `find_pair` makes, for the delimiter at `j`.
  abbrev value_at : Bytes → ℕ → ℕ → B
  value_at ss j i1 =
      if leb (j + 1) i1
      then lib.new_from_str_len (drop (j + 1) ss) (i1 - (j + 1))
      else lib.new_empty

  value_at-string :
      (ss k v t : Bytes) (i0 i1 : ℕ)
      → drop i0 ss ≡ k ++ fdelim ∷ (v ++ t)
      → i1 ≡ i0 + length k + 1 + length v
      → value_at ss (i0 + length k) i1 ≡ lib.new_from_str_len v (length v)
  value_at-string ss k v t i0 i1 h g =
      let test : leb (i0 + length k + 1) i1 ≡ true = ground arith in
      let size : i1 - (i0 + length k + 1) ≡ length v = omega arith in
      let there : drop (i0 + length k + 1) ss ≡ v ++ t =
        drop_next ss (i0 + length k) fdelim (v ++ t) (drop-length ss k (fdelim ∷ (v ++ t)) i0 h) in
      rw (test, size, there) (same_prefix v t)

  value_at-empty : (ss : Bytes) (j i1 : ℕ) → i1 ≡ j → value_at ss j i1 ≡ lib.new_from_str_len [] 0
  value_at-empty ss j i1 h =
      let test : leb (j + 1) i1 ≡ false = ground arith in rw (test) empty_string

  -- The test and the store of `find_pair` are those of `store_pair`.
  store_pair-test :
      (k v : Bytes) (i0 : ℕ) (hash : W)
      → (if ltb i0 (i0 + length k)
          then lib.hash_set_item
              (keydecode (lib.new_from_str_len k (length k)))
              (valdecode (lib.new_from_str_len v (length v)))
              hash
          else hash)
        ≡ store_pair lib keydecode valdecode fdelim k v hash
  unfolding store_pair
  store_pair-test [] v i0 hash = let test : ltb i0 (i0 + 0) ≡ false = ground arith in rw (test) refl
  store_pair-test (c ∷ k) v i0 hash =
      let test : ltb i0 (i0 + suc (length k)) ≡ true = ground arith in rw (test) refl

  key_of-split :
      (ss p t : Bytes) (i0 : ℕ)
      → drop i0 ss ≡ p ++ t
      → ((u : Bytes) × (drop i0 ss ≡ key_of fdelim p ++ u))
        × (value_at ss (i0 + length (key_of fdelim p)) (i0 + length p)
            ≡ lib.new_from_str_len (value_of fdelim p) (length (value_of fdelim p)))
  key_of-split ss p t i0 h =
      let k = key_of fdelim p in
      let v = value_of fdelim p in
      elim (key_of-cases fdelim p) [
        | inl e ↦
            let there : drop i0 ss ≡ k ++ fdelim ∷ (v ++ t) =
              h ∙ ap (λ r. r ++ t) e ∙ append_assoc k (fdelim ∷ v) t in
            let size : i0 + length p ≡ i0 + length k + 1 + length v =
              omega (arith, ap length e, length-append k (fdelim ∷ v)) in
            ((fdelim ∷ (v ++ t), there), value_at-string ss k v t i0 (i0 + length p) there size)
        | inr (e, g) ↦ (
          (t, h ∙ ap (λ r. r ++ t) e),
          rw (g) (value_at-empty ss (i0 + length k) (i0 + length p) (omega (arith, ap length e))),
        )
      ]

  find_pair-stored :
      (ss p t : Bytes) (i0 i1 : ℕ) (hash : W)
      → drop i0 ss ≡ p ++ t
      → i1 ≡ i0 + length p
      → find_pair lib keydecode valdecode fdelim rdelim ss i0 i1 hash ≡ stored p hash
  unfolding find_pair stored store_piece
  find_pair-stored ss p t i0 i1 hash h g =
      let e : i1 - i0 ≡ length p = omega arith in
      let ((u, there), value) = key_of-split ss p t i0 h in
      rw
        (
          e,
          g,
          find_delim-key_of fdelim ss p t i0 h,
          key-string ss (key_of fdelim p) u i0 there,
          value,
        )
        (store_pair-test (key_of fdelim p) (value_of fdelim p) i0 hash)

  stored_all : List Bytes → W → W
  stored_all = store_pieces lib keydecode valdecode fdelim

  loop : Bytes → ℕ → ℕ → Pairs W → Pairs W
  loop = kvp_loop lib keydecode valdecode fdelim rdelim

  stored_all-cons :
      (q : Bytes) (ps : List Bytes) (hash : W)
      → stored_all (join q ([] ∷ ps)) hash ≡ stored_all ps (stored q hash)
  unfolding stored_all store_pieces stored join
  stored_all-cons q ps hash = rw (append-nil q) refl

  stored_all-last : (q : Bytes) (hash : W) → stored_all (join q ([] ∷ [])) hash ≡ stored q hash
  unfolding stored_all store_pieces stored join
  stored_all-last q hash = rw (append-nil q) refl

  loop-skip :
      (ss : Bytes) (n i1 c : ℕ) (p : Pairs W)
      → get_or ss i1 0 ≡ c
      → (c == rdelim) ≡ false
      → loop ss (suc n) i1 p ≡ loop ss n (i1 + 1) p
  unfolding loop kvp_loop
  loop-skip ss n i1 c p h e = rw (h, e) refl

  loop-cut :
      (ss : Bytes) (n i1 c : ℕ) (p : Pairs W) (hash : W)
      → get_or ss i1 0 ≡ c
      → (c == rdelim) ≡ true
      → find_pair lib keydecode valdecode fdelim rdelim ss p.i0 i1 p.hash ≡ hash
      → loop ss (suc n) i1 p ≡ loop ss n (i1 + 1) (record { i0 = i1 + 1; hash = hash })
  unfolding loop kvp_loop
  loop-cut ss n i1 c p hash h e g = rw (h, e, g) refl

  loop-end : (ss : Bytes) (i1 : ℕ) (p : Pairs W) → loop ss 0 i1 p ≡ p
  unfolding loop kvp_loop
  loop-end ss i1 p = refl

  -- The end of `parse_kvp_body`, from what the loop left.
  last_pair : Bytes → ℕ → Pairs W → W
  last_pair ss i1 p = find_pair lib keydecode valdecode fdelim rdelim ss p.i0 i1 p.hash

  last_pair-stored :
      (ss q t : Bytes) (i0 i1 : ℕ) (hash : W)
      → drop i0 ss ≡ q ++ t
      → i1 ≡ i0 + length q
      → last_pair ss i1 (record { i0 = i0; hash = hash }) ≡ stored q hash
  unfolding last_pair
  last_pair-stored ss q t i0 i1 hash h e = find_pair-stored ss q t i0 i1 hash h e

  -- From the loop's index i1 on, with the text t and the NUL left and q read since i0.
  loop-stored :
      (ss q t : Bytes) (i0 i1 : ℕ) (hash : W)
      → rdelim ≢ 0
      → drop i0 ss ≡ q ++ (t ++ 0 ∷ [])
      → drop i1 ss ≡ t ++ 0 ∷ []
      → i1 ≡ i0 + length q
      → last_pair ss (i1 + length t) (loop ss (suc (length t)) i1 (record { i0 = i0; hash = hash }))
        ≡ stored_all (join q (pieces rdelim t)) hash
  unfolding pieces
  loop-stored ss q [] i0 i1 hash ne h g e =
      let p : Pairs W = record { i0 = i0; hash = hash } in
      let test : (0 == rdelim) ≡ false = ground arith in
      let at_q : i1 + 0 ≡ i0 + length q = omega arith in
      rw
        (
          loop-skip ss 0 i1 0 p (get_or-drop ss i1 0 [] g) test,
          loop-end ss (i1 + 1) p,
          stored_all-last q hash,
        )
        (last_pair-stored ss q (0 ∷ []) i0 (i1 + 0) hash h at_q)
  loop-stored ss q (c ∷ t) i0 i1 hash ne h g e =
      let p : Pairs W = record { i0 = i0; hash = hash } in
      let got = get_or-drop ss i1 c (t ++ 0 ∷ []) g in
      let there = drop_next ss i1 c (t ++ 0 ∷ []) g in
      let len : i1 + suc (length t) ≡ i1 + 1 + length t = omega arith in
      rw (len) (elim (Bool-cases (c == rdelim)) [
        | inl s ↦
            let cut = find_pair-stored ss q (c ∷ (t ++ 0 ∷ [])) i0 i1 hash h e in
            let at : i1 + 1 ≡ i1 + 1 + 0 = omega arith in
            rw
              (
                s,
                loop-cut ss (suc (length t)) i1 c p (stored q hash) got s cut,
                stored_all-cons q (pieces rdelim t) hash,
                ← join-pieces rdelim t,
              )
              (loop-stored ss [] t (i1 + 1) (i1 + 1) (stored q hash) ne there there at)
        | inr s ↦
            let more = h ∙ sym (append_assoc q (c ∷ []) (t ++ 0 ∷ [])) in
            let at : i1 + 1 ≡ i0 + length (q ++ c ∷ []) = omega (arith, length-append q (c ∷ [])) in
            rw
              (s, loop-skip ss (suc (length t)) i1 c p got s, join-grow_first q c (pieces rdelim t))
              (loop-stored ss (q ++ c ∷ []) t i0 (i1 + 1) hash ne more there at)
      ])

  -- Where no NUL is a record's delimiter, parsing the text t with its NUL stores the pairs of the
  -- pieces of t, in order.
  pub parse_kvp_body-pieces :
      (t : Bytes) (hash : W)
      → rdelim ≢ 0
      → parse_kvp_body lib keydecode valdecode fdelim rdelim (t ++ 0 ∷ []) hash
        ≡ store_pieces lib keydecode valdecode fdelim (pieces rdelim t) hash
  unfolding parse_kvp_body loop stored_all last_pair
  parse_kvp_body-pieces t hash ne =
      let len : length (t ++ 0 ∷ []) ≡ suc (length t) = omega (arith, length-append t (0 ∷ [])) in
      let end : suc (length t) - 1 ≡ 0 + length t = omega arith in
      rw (len, end, ← join-pieces rdelim t)
        (loop-stored (t ++ 0 ∷ []) [] t 0 0 hash ne refl refl (omega arith))
