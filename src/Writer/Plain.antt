-- ===== src/Writer/Plain.antt =====
-- The interfaces of the printing functions filled in by plain lists, for runs of the models.
use mnapp.Shared.{
  ℕ, ◌+◌, ◌-◌, ◌<◌, ◌≡◌, refl, true, ltb, if◌then◌else◌, List, [], ◌∷◌, ◌++◌, arith, Bytes, length,
  take,
}
use mnapp.Writer.Output.{Output, Put}
use mnapp.Writer.Printed.{IsReliable}
use mnapp.Writer.Uri.{QueryTerms}

-- The stream is what was written; a text with no room is cut.
unfoldable pub printed : Bytes → ℕ → Bytes → Put Bytes
printed w sz t = record {
  written = true;
  out = w ++ (if ltb (length t) sz then t else take (sz - 1) t);
}

pub printed-contents :
    (w : Bytes) (sz : ℕ) (t : Bytes)
    → length t < sz
    → (printed w sz t).written ≡ true
    → (printed w sz t).out ≡ w ++ t
unfolding printed
printed-contents w sz t h e = let fits : ltb (length t) sz ≡ true = ground arith in rw (fits) refl

abbrev pub stream : Output Bytes
stream = record {
  nprintf = printed;
  cat = λ w t. record { written = true; out = w ++ t };
  contents = λ w. w;
  nprintf-contents = printed-contents;
  cat-contents = λ w t h. refl;
}

abbrev pub Pairs : Type 0
Pairs = List (Bytes × Bytes)

abbrev pub terms : QueryTerms Bytes Pairs
terms = record {
  bsz = λ b. length b + 1;
  last_byte = λ b. 0;
  items = λ h. h;
  hash_set_item = λ k v h. h ++ (k, v) ∷ [];
  urlencode2 = λ n b. b;
}

always_written : (w : Bytes) (sz : ℕ) (t : Bytes) → (printed w sz t).written ≡ true
unfolding printed
always_written w sz t = refl

-- It always has memory.
pub stream-IsReliable : IsReliable stream
stream-IsReliable = record {
  nprintf-written = λ w sz t h. always_written w sz t;
  cat-written = λ w t. refl;
}
