-- ===== src/Command/Tests.antt =====
-- Runs of the commands' operations, and their theorems at concrete inputs.
use mnapp.Command.Add.{IsAdded, mncommand_ctx_add_cmd-IsAdded, mncommand_ctx_add_cmd-out_of_step}
use mnapp.Command.Defs.{
  Commands, Cmd, success, add_cmd, mncommand_ctx_init, mncommand_ctx_add_cmd, new_cmd,
}
use mnapp.Command.Getopt.{symbols}
use mnapp.Command.Help.{Row, help_rows, Print, mncommand_ctx_format_help}
use mnapp.Command.Rows.{visible, joined, IsSpaced, help_rows-visible}
use mnapp.Command.Values.{mncommand_option_bool, mncommand_option_int}
use mnapp.Command.Wrap.{IsCut, mncommand_find_ncopy, mncommand_find_ncopy-IsCut}
use mnapp.Shared.Int.{pos, negsuc}
use mnapp.Shared.{
  ℕ, ◌≡◌, refl, Bool, true, false, ◌-◌, none, some, List, [], ◌∷◌, ◌++◌, Bytes, codes, length, min,
  suc, zero, arith, ◌≤◌, All, replicate,
}
use mnapp.Shared.Plain.{plain}

abbrev PlainCommands : Type 0
PlainCommands = Commands Bytes ℕ ℕ

abbrev no_commands : PlainCommands
no_commands = record { progname = none; commands = []; options = [] }

initialised : mncommand_ctx_init true true no_commands ≡ (no_commands, success)
unfolding mncommand_ctx_init
initialised = refl

abbrev grows : ℕ → Bool
grows n = true

abbrev stays : ℕ → Bool
stays n = false

abbrev verbose : Cmd Bytes ℕ ℕ
verbose = new_cmd plain (codes "verbose") (pos b'v') 0 none none none

verbose_helpspec : verbose.helpspec ≡ some (codes "--verbose|-v ")
unfolding new_cmd
verbose_helpspec = refl

bool_off : mncommand_option_bool (some (codes "Off")) ≡ false
unfolding mncommand_option_bool mnapp.Http.Message.bytes_eq
bool_off = refl

int_value : mncommand_option_int (some (codes " -42x")) (pos 1) ≡ negsuc 41
unfolding mncommand_option_int mnapp.Http.Strtol.strtol
int_value = refl

abbrev description : Bytes
description = codes "print more of it"

cut_at_space : mncommand_find_ncopy description 0 16 9 ≡ 5
unfolding mncommand_find_ncopy
cut_at_space = refl

mncommand_find_ncopy-IsCut_example :
    IsCut description 0 (min 16 (9 - 2)) (mncommand_find_ncopy description 0 16 9)
mncommand_find_ncopy-IsCut_example =
    mncommand_find_ncopy-IsCut description 0 16 9 (omega arith) (omega arith)

mncommand_ctx_add_cmd-IsAdded_example :
    (added : PlainCommands) × (mncommand_ctx_add_cmd plain grows grows no_commands
        (some (codes "verbose"))
        (pos b'v')
        0
        none
        none
        none
      ≡ some (added, success))
    × IsAdded plain grows grows no_commands added (pos b'v') verbose
mncommand_ctx_add_cmd-IsAdded_example =
    mncommand_ctx_add_cmd-IsAdded plain grows grows no_commands (codes "verbose") (pos b'v') 0 none
      none none refl refl refl

mncommand_ctx_add_cmd-out_of_step_example :
    (left : PlainCommands) × (mncommand_ctx_add_cmd plain grows stays no_commands
        (some (codes "verbose"))
        (pos b'v')
        0
        none
        none
        none
      ≡ some (left, add_cmd 2))
    × (length left.commands ≡ suc (length left.options))
mncommand_ctx_add_cmd-out_of_step_example =
    mncommand_ctx_add_cmd-out_of_step plain grows stays no_commands (codes "verbose") (pos b'v') 0
      none none none refl refl refl

abbrev one_command : PlainCommands
one_command = record { progname = none; commands = verbose ∷ []; options = verbose.opt ∷ [] }

verbose_symbols : symbols (one_command.commands) ≡ codes "v"
unfolding symbols new_cmd
verbose_symbols = refl

-- Two spaces with a word of sixty letters behind them make the count of the bytes wrap.
double_space : help_rows 70 (codes "  " ++ replicate 60 b'x') 0 62 ≡ none
unfolding help_rows
double_space = refl

abbrev text : Bytes
text = codes "a b"

text-IsSpaced : IsSpaced text
text-IsSpaced zero h = cc
text-IsSpaced (suc zero) h = refl
text-IsSpaced (suc (suc zero)) h = cc
text-IsSpaced (suc (suc (suc i))) h = cc

help_rows-visible_example :
    (rows : List Row) × (help_rows 10 text 0 (length text) ≡ some rows)
    × (visible (joined rows) ≡ visible text)
    × All (λ (r : Row). length r.text ≤ 53) rows
help_rows-visible_example =
    help_rows-visible text 10 (omega arith) (omega arith) text-IsSpaced (omega arith)

-- The stream is what was printed.
abbrev help_lib : Print Bytes
help_lib = record { nprintf = λ w t. (pos (length t), w ++ t); cat = λ w t. w ++ t }

abbrev helped : PlainCommands
helped = record {
  progname = some (codes "prog");
  commands = new_cmd plain (codes "verbose") (pos b'v') 0 (some text) none none ∷ [];
  options = [];
}

help_printed :
    mncommand_ctx_format_help help_lib plain helped []
    ≡ some (codes "Usage: prog [OPTIONS] [ARGUMENTS]\n\n  --verbose|-v          a b\n")
unfolding mncommand_ctx_format_help new_cmd
help_printed = refl
