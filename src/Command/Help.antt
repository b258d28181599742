-- ===== src/Command/Help.antt =====
-- src/mncommand.c: `mncommand_ctx_format_help`. A text is read up to its NUL, and is shorter than
-- half of the addresses.
use mnapp.Command.Defs.{Cmd, Commands, isalnum}
use mnapp.Command.Wrap.{size_t_sub, mncommand_find_ncopy}
use mnapp.Http.Strtol.{spaces}
use mnapp.Shared.Int.{ℤ, pos, ltb_ℤ}
use mnapp.Shared.MnBytes.{MnBytes}
use mnapp.Shared.{
  ℕ, zero, suc, ◌+◌, ◌-◌, Bool, ◌&&◌, Option, none, some, List, [], ◌∷◌, ◌++◌, ◌>>=◌, if◌then◌else◌,
  ltb, leb, Bytes, codes, length, get_or, take, drop, replicate,
}

-- What `buf` holds for a line: a part of the text, and whether a dash follows.
pub record Row : Type 0 where
  pub text : Bytes
  pub dashed : Bool

-- What a round of the loop leaves: the line and the new `nhead` and `ntail`.
pub record Round : Type 0 where
  pub row : Row
  pub nhead : ℕ
  pub ntail : ℕ

-- The line of `n` bytes from `head` on, of `tail` bytes that are left. `none` means that it copies or
-- writes past `buf`, or reads outside of the text.
unfoldable pub fill_row : Bytes → ℕ → ℕ → ℕ → Bool → Option Round
fill_row s head n tail dashed =
    let end = if dashed then n + 1 else n in
    let row : Row = record { text = take n (drop head s); dashed = dashed } in
    if ltb end 55 && ltb 0 (head + n) && leb (head + n) (length s)
    then some (record { row = row; nhead = head + n; ntail = size_t_sub tail n })
    else none

-- A dash comes inside of a word.
unfoldable pub is_dashed : Bytes → ℕ → Bool
unfolding isalnum
is_dashed s end = isalnum (pos (get_or s (end - 1) 0)) && isalnum (pos (get_or s end 0))

-- The line behind `k` spaces, which are skipped.
unfoldable pub cut_row : Bytes → ℕ → ℕ → ℕ → ℕ → Option Round
unfolding fill_row is_dashed
cut_row s nhead ntail ncopy k =
    let head = nhead + k in
    let n = size_t_sub ncopy k in fill_row s head n (size_t_sub ntail k) (is_dashed s (head + n))

unfoldable pub help_round : Bytes → ℕ → ℕ → Option Round
unfolding mncommand_find_ncopy spaces cut_row
help_round s nhead ntail =
    cut_row s nhead ntail (mncommand_find_ncopy s nhead ntail 55) (spaces (drop nhead s))

-- The loop on fuel, behind a round; `rest` is the loop from there.
unfoldable pub help_next : (Round → Option (List Row)) → Option Round → Option (List Row)
help_next rest none = none
help_next rest (some r) =
    if ltb 0 r.ntail then rest r >>= (λ rows. some (r.row ∷ rows)) else some (r.row ∷ [])

unfoldable pub help_rows : ℕ → Bytes → ℕ → ℕ → Option (List Row)
unfolding help_round help_next
help_rows zero s nhead ntail = none
help_rows (suc fuel) s nhead ntail =
    help_next (λ r. help_rows fuel s r.nhead r.ntail) (help_round s nhead ntail)

-- `bytestream_nprintf(bs, 1024, ...)` with the text that its format makes, and what it returns, and
-- `bytestream_cat`.
pub record Print (W : Type 0) : Type 0 where
  pub nprintf : W → Bytes → ℤ × W
  pub cat : W → Bytes → W

abbrev pub margin : Bytes
margin = replicate 24 b' '

-- `%-22s`
abbrev pub padded : Bytes → Bytes
padded spec = spec ++ replicate (22 - length spec) b' '

module _ {W : Type 0} (lib : Print W) where
  open lib use {nprintf, cat}

  -- The lines of a description. All but the first have a margin.
  unfoldable pub print_rows : List Row → W → W
  print_rows [] out = out
  print_rows (r ∷ []) out =
      (nprintf out (r.text ++ (if r.dashed then codes "-\n" else codes "\n"))).1
  print_rows (r ∷ q ∷ rows) out =
      let o = (nprintf out (r.text ++ (if r.dashed then codes "-\n" else codes "\n"))).1 in
      print_rows (q ∷ rows) (nprintf o margin).1

  -- What follows the help spec, of which `nwritten` bytes were written.
  unfoldable pub print_description : ℤ → Option Bytes → W → Option W
  unfolding help_rows print_rows
  print_description nwritten description out =
      let below = (nprintf (cat out (codes "\n")) margin).1 in
      let start = if ltb_ℤ (pos 24) nwritten then below else out in
      elim description [
        | none ↦ some (cat start (codes "\n"))
        | some s ↦
            help_rows (suc (length s)) s 0 (length s) >>= λ rows. some (print_rows rows start)
      ]

  module _ {B F D : Type 0} (strings : MnBytes B) where
    open strings use {cdata}

    -- A NULL that is read makes it `none`.
    unfoldable pub print_cmd : Cmd B F D → W → Option W
    unfolding print_description
    print_cmd cmd out = do
      spec ← cmd.helpspec
      let description : Option Bytes = elim cmd.description [
        | none ↦ none
        | some d ↦ some (cdata d)
      ]
      let (nwritten, o) = nprintf out (codes "  " ++ padded (cdata spec))
      if ltb_ℤ (pos 0) nwritten then print_description nwritten description o else some o

    unfoldable pub print_cmds : List (Cmd B F D) → W → Option W
    unfolding print_cmd
    print_cmds [] out = some out
    print_cmds (c ∷ cs) out = print_cmd c out >>= print_cmds cs

    unfoldable pub mncommand_ctx_format_help : Commands B F D → W → Option W
    unfolding print_cmds
    mncommand_ctx_format_help ctx out = do
      name ← ctx.progname
      let usage = codes "Usage: " ++ (cdata name ++ codes " [OPTIONS] [ARGUMENTS]\n\n")
      print_cmds ctx.commands (nprintf out usage).1
