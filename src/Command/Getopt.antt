-- ===== src/Command/Getopt.antt =====
-- src/mncommand.c: `getopt_symbol`, `mncommand_ctx_getopt`.
use mnapp.Command.Defs.{
  LongOption, zero_option, Cmd, Commands, isalnum, char, mncommand_ctx_find_cmd,
}
use mnapp.Shared.MnBytes.{MnBytes}
use mnapp.Shared.Int.{ℤ, pos, eqb_ℤ}
use mnapp.Shared.{
  ℕ, zero, suc, ◌==◌, ◌≡◌, Option, none, some, List, [], ◌∷◌, ◌++◌, ◌>>=◌, if◌then◌else◌, length,
  map, Bytes, codes,
}

-- What `getopt_long` finds: what it returns, the index of a long option or -1, and `optarg`.
pub record Found : Type 0 where
  pub ch : ℤ
  pub curropt : ℤ
  pub optarg : Option Bytes

-- The loop returns `optind`, MNCOMMAND_CTX_GETOPT + 2, or what a function of a command returned.
pub data Parsed : Type 0 where
  parsed returned : ℤ → Parsed
  unknown : Parsed

-- `getopt_long` on the world `W`, none for -1, with the symbols and the options, `optind`, and the
-- functions of commands, which do not change the context. No code reads the flags that
-- `getopt_long` sets.
pub record Getopt (B F D W : Type 0) : Type 0 where
  pub getopt_long : Bytes → List LongOption → W → Option Found × W
  pub optind : W → ℤ
  pub call : F → Commands B F D → Cmd B F D → Option Bytes → W → ℤ × W

-- The name of the program, from the text of argv[0] where there is none.
unfoldable pub named : {B : Type 0} → MnBytes B → Bytes → Option B → Option B
named strings base none = some (strings.from_str base)
named strings base (some p) = some p

module _ {B F D : Type 0} where
  -- What it writes for a command.
  unfoldable pub getopt_symbol : Cmd B F D → Bytes
  unfolding isalnum char
  getopt_symbol cmd =
      let arg = if cmd.opt.has_arg == 0 then [] else codes ":" in
      if isalnum cmd.opt.val then char cmd.opt.val ∷ arg else []

  unfoldable pub symbols : List (Cmd B F D) → Bytes
  unfolding getopt_symbol
  symbols [] = []
  symbols (c ∷ cs) = getopt_symbol c ++ symbols cs

  -- The loop that points the flags at the commands, from the one at `i` on. `none` means that it
  -- writes behind the options.
  unfoldable pub fixups :
      ℕ → List (Cmd B F D) → List LongOption → Option (List (Cmd B F D) × List LongOption)
  fixups i [] os = some ([], os)
  fixups i (c ∷ cs) [] = none
  fixups i (c ∷ cs) (o ∷ os) = do
    (cs', os') ← fixups (suc i) cs os
    some (record c { opt = record c.opt { flag = some i } } ∷ cs', record o { flag = some i } ∷ os')

  -- The context before the loop; `base` is `basename(argv[0])`, and the array of the options grows.
  unfoldable pub prepare : MnBytes B → Bytes → Commands B F D → Option (Commands B F D)
  unfolding named fixups
  prepare strings base ctx = do
    (cs, os) ← fixups 0 ctx.commands ctx.options
    some (record {
      progname = named strings base ctx.progname;
      commands = cs;
      options = os ++ zero_option ∷ [];
    })

module _ {B F D W : Type 0} (lib : Getopt B F D W) (ctx : Commands B F D) where
  open lib use {getopt_long, optind, call}

  -- The call of a command's function; `again` is the rest of the loop.
  unfoldable pub after_call : (W → Option (Parsed × W)) → ℤ × W → Option (Parsed × W)
  unfolding eqb_ℤ
  after_call again (res, w) = if eqb_ℤ res (pos 0) then again w else some (returned res, w)

  unfoldable pub run_cmd :
      (W → Option (Parsed × W)) → Option Bytes → Option (Cmd B F D) → W → Option (Parsed × W)
  unfolding after_call
  run_cmd again optarg none w = some (unknown, w)
  run_cmd again optarg (some cmd) w = elim cmd.func [
    | none ↦ again w
    | some f ↦ after_call again (call f ctx cmd optarg w)
  ]

  -- The loop on fuel; `none` means that it ran out.
  unfoldable pub getopt_loop : ℕ → W → Option (Parsed × W)
  unfolding symbols run_cmd mncommand_ctx_find_cmd
  getopt_loop zero w = none
  getopt_loop (suc fuel) w =
      let (found, w') = getopt_long (symbols ctx.commands) ctx.options w in
      elim found [
        | none ↦ some (parsed (optind w'), w')
        | some f ↦
            run_cmd (getopt_loop fuel) f.optarg (mncommand_ctx_find_cmd ctx f.curropt f.ch) w'
      ]

unfoldable pub mncommand_ctx_getopt :
    {B F D W : Type 0}
    → MnBytes B
    → Getopt B F D W
    → ℕ
    → Bytes
    → Commands B F D
    → W
    → Option (Parsed × Commands B F D × W)
unfolding prepare getopt_loop
mncommand_ctx_getopt strings lib fuel base ctx w = do
  ready ← prepare strings base ctx
  (res, w') ← getopt_loop lib ready fuel w
  some (res, ready, w')

-- The pointers to the flags of `n` commands, from the one at `i` on.
abbrev pub pointers : ℕ → ℕ → List (Option ℕ)
pointers i zero = []
pointers i (suc n) = some i ∷ pointers (suc i) n

module _ {B F D : Type 0} where
  -- A command but for the flag of its option.
  abbrev pub unflagged : Cmd B F D → Cmd B F D
  unflagged c = record c { opt = record c.opt { flag = none } }

  -- The commands are `before` but for the flags; the options are those of the commands, each with
  -- its own flag.
  pub record IsPointed (i : ℕ) (before cs : List (Cmd B F D)) (os : List LongOption) : Type 0 where
    pub kept : map unflagged cs ≡ map unflagged before
    pub same : os ≡ map (λ c. c.opt) cs
    pub own : map (λ (c : Cmd B F D). c.opt.flag) cs ≡ pointers i (length before)
