-- ===== src/Http/Scan.antt =====
-- src/mnhttp.c: `findcrlf`, `findsp` and `findnosp`. A pointer into the text is an offset, and the
-- text is what the size bounds.
use mnapp.Shared.{
  ℕ, suc, Bool, false, not, ◌||◌, Option, none, some, [], ◌∷◌, ◌==◌, if◌then◌else◌, Bytes,
}

abbrev pub after : Option ℕ → Option ℕ
after none = none
after (some k) = some (suc k)

-- `ISSPACE`
abbrev pub is_space : ℕ → Bool
is_space c = c == b' ' || c == b'\t'

-- The test of one position: a CR with an LF behind it, inside the text.
abbrev pub starts_crlf : Bytes → Bool
starts_crlf (c ∷ d ∷ s) = if c == b'\r' then d == b'\n' else false
starts_crlf _ = false

unfoldable pub findcrlf : Bytes → Option ℕ
findcrlf [] = none
findcrlf (c ∷ s) = let rest = after (findcrlf s) in if starts_crlf (c ∷ s) then some 0 else rest

unfoldable pub findsp : Bytes → Option ℕ
findsp [] = none
findsp (c ∷ s) = let rest = after (findsp s) in if is_space c then some 0 else rest

unfoldable pub findnosp : Bytes → Option ℕ
findnosp [] = none
findnosp (c ∷ s) = let rest = after (findnosp s) in if not (is_space c) then some 0 else rest
