-- ===== src/Http/Field.antt =====
-- The text of a header field, and what the scanners find in it.
use mnapp.Http.Message.{cstr, memchr}
use mnapp.Http.Scan.{is_space, starts_crlf, findcrlf, findnosp}
use mnapp.Shared.{
  ℕ, zero, suc, ◌+◌, ◌-◌, ◌<◌, ◌≤◌, ◌≡◌, ◌≢◌, refl, sym, ap, ◌∙◌, false, some, List, [], ◌∷◌, ◌++◌,
  arith, Bytes, All, All-append, length, length-append, take, take-append, drop, drop-append, set,
  set-append, append_assoc,
}

starts_crlf-other : (c : ℕ) (s : Bytes) → c ≢ b'\r' → starts_crlf (c ∷ s) ≡ false
starts_crlf-other c [] ne = refl
starts_crlf-other c (d ∷ s) ne = ground (arith, ne)

findcrlf-append :
    (s rest : Bytes)
    → All (λ c. c ≢ b'\r') s
    → findcrlf (s ++ (b'\r' ∷ b'\n' ∷ rest)) ≡ some (length s)
unfolding findcrlf
findcrlf-append [] rest h = refl
findcrlf-append (c ∷ s) rest (ne, h) =
    rw (starts_crlf-other c (s ++ (b'\r' ∷ b'\n' ∷ rest)) ne) (rw (findcrlf-append s rest h) refl)

memchr-append :
    (b : ℕ) (s rest : Bytes) → All (λ c. c ≢ b) s → memchr b (s ++ (b ∷ rest)) ≡ some (length s)
unfolding memchr
memchr-append b [] rest h = ground arith
memchr-append b (c ∷ s) rest (ne, h) = ground (arith, memchr-append b s rest h, ne)

pub drop-set :
    {A : Type 0} (i k j : ℕ) (xs : List A) (v : A)
    → j ≡ i + k
    → drop i (set xs j v) ≡ set (drop i xs) k v
drop-set zero k j xs v e = let same : j ≡ k = omega arith in rw (same) refl
drop-set (suc i) k zero xs v e = absurd (omega arith)
drop-set (suc i) k (suc j) [] v e = refl
drop-set (suc i) k (suc j) (x ∷ xs) v e = drop-set i k j xs v (omega arith)

pub drop-add : {A : Type 0} (i k j : ℕ) (xs : List A) → j ≡ i + k → drop j xs ≡ drop k (drop i xs)
drop-add zero k j xs e = let same : j ≡ k = omega arith in rw (same) refl
drop-add (suc i) k zero xs e = absurd (omega arith)
drop-add (suc i) zero (suc j) [] e = refl
drop-add (suc i) (suc k) (suc j) [] e = refl
drop-add (suc i) k (suc j) (x ∷ xs) e = drop-add i k j xs (omega arith)

pub cstr-append : (s rest : Bytes) → All (λ c. c ≢ 0) s → cstr (s ++ (0 ∷ rest)) ≡ s
unfolding cstr
cstr-append [] rest h = ground arith
cstr-append (c ∷ s) rest (ne, h) = ground (arith, ne, cstr-append s rest h)

take-more :
    {A : Type 0} (k : ℕ) (xs ys : List A)
    → length xs ≤ k
    → take k (xs ++ ys) ≡ xs ++ take (k - length xs) ys
take-more k [] ys h = let same : k - 0 ≡ k = omega arith in rw (same) refl
take-more zero (x ∷ xs) ys h = absurd (omega (arith, h))
take-more (suc k) (x ∷ xs) ys h =
    let same : suc k - suc (length xs) ≡ k - length xs = omega arith in
    rw (same) (ap (λ r. x ∷ r) (take-more k xs ys (omega (arith, h))))

drop-append_one : {A : Type 0} (xs ys : List A) (y : A) → drop (length xs + 1) (xs ++ (y ∷ ys)) ≡ ys
drop-append_one xs ys y =
    drop-add (length xs) 1 (length xs + 1) (xs ++ (y ∷ ys)) refl
    ∙ ap (drop 1) (drop-append xs (y ∷ ys) (length xs) refl)

-- What a name and a value may be for a header field to be read back.
pub record IsField (name : Bytes) (first : ℕ) (value : Bytes) : Type 0 where
  pub not_empty : 0 < length name
  pub no_colon : All (λ c. c ≢ b':') name
  pub name_text : All (λ c. c ≢ 0) name
  pub name_line : All (λ c. c ≢ b'\r') name
  pub no_space : is_space first ≡ false
  pub value_text : All (λ c. c ≢ 0) (first ∷ value)
  pub value_line : All (λ c. c ≢ b'\r') (first ∷ value)

-- A field as it is written, with what follows.
unfoldable pub written_field : Bytes → Bytes → Bytes → Bytes
written_field name value rest = name ++ (b':' ∷ b' ' ∷ (value ++ (b'\r' ∷ b'\n' ∷ rest)))

-- The same with both parts ended by a NUL.
unfoldable pub ended_field : Bytes → Bytes → Bytes → Bytes
ended_field name value rest = name ++ (0 ∷ b' ' ∷ (value ++ (0 ∷ b'\n' ∷ rest)))

module _ (name : Bytes) (first : ℕ) (tail rest : Bytes) (field : IsField name first tail) where
  unfoldable pub value : Bytes
  value = first ∷ tail

  -- The line, up to the CR.
  unfoldable pub line : Bytes
  unfolding value
  line = name ++ (b':' ∷ b' ' ∷ value)

  written-line : written_field name value rest ≡ line ++ (b'\r' ∷ b'\n' ∷ rest)
  unfolding written_field line value
  written-line = sym (append_assoc name (b':' ∷ b' ' ∷ value) (b'\r' ∷ b'\n' ∷ rest))

  pub length-line : length line ≡ length name + 2 + length value
  unfolding line value
  length-line = omega (arith, length-append name (b':' ∷ b' ' ∷ value))

  line_text : All (λ c. c ≢ b'\r') line
  unfolding line value
  line_text =
      All-append (λ c. c ≢ b'\r') name (b':' ∷ b' ' ∷ value) field.name_line
        ((λ z. omega arith), ((λ z. omega arith), field.value_line))

  -- The line is found where two bytes behind it are in the text.
  pub findcrlf-available :
      (k : ℕ)
      → length line + 2 ≤ k
      → findcrlf (take k (written_field name value rest)) ≡ some (length line)
  findcrlf-available k h =
      let left : k - length line ≡ suc (suc (k - length line - 2)) = omega arith in
      ap (λ t. findcrlf (take k t)) written-line
      ∙ ap findcrlf (take-more k line (b'\r' ∷ b'\n' ∷ rest) (omega arith))
      ∙ rw (left) (findcrlf-append line (take (k - length line - 2) rest) line_text)

  pub memchr-line :
      memchr b':' (take (length line) (written_field name value rest)) ≡ some (length name)
  unfolding line
  memchr-line =
      ap (λ t. memchr b':' (take (length line) t)) written-line
      ∙ ap (memchr b':') (take-append line (b'\r' ∷ b'\n' ∷ rest) (length line) refl)
      ∙ memchr-append b':' name (b' ' ∷ value) field.no_colon

  -- The colon, and then the CR, becomes a NUL.
  pub set-name :
      set (written_field name value rest) (length name) 0
      ≡ name ++ (0 ∷ b' ' ∷ (value ++ (b'\r' ∷ b'\n' ∷ rest)))
  unfolding written_field
  set-name = set-append name b':' (b' ' ∷ (value ++ (b'\r' ∷ b'\n' ∷ rest))) 0 (length name) refl

  pub set-line :
      set (name ++ (0 ∷ b' ' ∷ (value ++ (b'\r' ∷ b'\n' ∷ rest)))) (length line) 0
      ≡ ended_field name value rest
  unfolding ended_field
  set-line =
      let front = name ++ (0 ∷ b' ' ∷ value) in
      let long = length-append name (0 ∷ b' ' ∷ value) in
      ap (λ t. set t (length line) 0)
        (sym (append_assoc name (0 ∷ b' ' ∷ value) (b'\r' ∷ b'\n' ∷ rest)))
      ∙ set-append front b'\r' (b'\n' ∷ rest) 0 (length line) (omega (arith, long, length-line))
      ∙ append_assoc name (0 ∷ b' ' ∷ value) (0 ∷ b'\n' ∷ rest)

  pub findnosp-value :
      findnosp (
        take
          (1 + length value)
          (drop (length name + 1) (name ++ (0 ∷ b' ' ∷ (value ++ (b'\r' ∷ b'\n' ∷ rest))))))
      ≡ some 1
  unfolding value findnosp
  findnosp-value =
      ap (λ t. findnosp (take (1 + length value) t))
        (drop-append_one name (b' ' ∷ (value ++ (b'\r' ∷ b'\n' ∷ rest))) 0)
      ∙ ap findnosp
          (take-append (b' ' ∷ value) (b'\r' ∷ b'\n' ∷ rest) (1 + length value) (omega arith))
      ∙ rw (field.no_space) refl

  pub cstr-name : cstr (ended_field name value rest) ≡ name
  unfolding ended_field
  cstr-name = cstr-append name (b' ' ∷ (value ++ (0 ∷ b'\n' ∷ rest))) field.name_text

  pub cstr-value : cstr (drop (length name + 2) (ended_field name value rest)) ≡ value
  unfolding ended_field value
  cstr-value =
      let behind = b' ' ∷ (value ++ (0 ∷ b'\n' ∷ rest)) in
      ap cstr (
        drop-add (length name + 1) 1 (length name + 2) (name ++ (0 ∷ behind)) (omega arith)
        ∙ ap (drop 1) (drop-append_one name behind 0))
      ∙ cstr-append value (b'\n' ∷ rest) field.value_text

  pub drop-ended : drop (length line + 2) (ended_field name value rest) ≡ rest
  unfolding ended_field
  drop-ended =
      let front = name ++ (0 ∷ b' ' ∷ value) in
      let long = length-append name (0 ∷ b' ' ∷ value) in
      ap (drop (length line + 2)) (sym (append_assoc name (0 ∷ b' ' ∷ value) (0 ∷ b'\n' ∷ rest)))
      ∙ drop-add (length front) 2 (length line + 2) (front ++ (0 ∷ b'\n' ∷ rest))
          (omega (arith, long, length-line))
      ∙ ap (drop 2) (drop-append front (0 ∷ b'\n' ∷ rest) (length front) refl)
