-- ===== src/Command/Defs.antt =====
-- src/mncommand.c, src/mncommand.h: the context, `mncommand_ctx_add_cmd`, `mncommand_ctx_find_cmd`.
use mnapp.Shared.MnBytes.{MnBytes}
use mnapp.Shared.Int.{ℤ, pos, negsuc, eqb_ℤ}
use mnapp.Shared.{
  ℕ, zero, suc, Bool, false, not, ◌&&◌, ◌||◌, ◌==◌, leb, if◌then◌else◌, Option, none, some, List,
  [], ◌∷◌, ◌++◌, length, Bytes, codes,
}

-- `struct option`. `flag` is NULL, or points at the flag of the command with that index.
pub record LongOption : Type 0 where
  pub name : Bytes
  pub has_arg : ℕ
  pub flag : Option ℕ
  pub val : ℤ

-- `mncommand_cmd_t`, where `F` stands for the function and `D` for the data of a command.
pub record Cmd (B F D : Type 0) : Type 0 where
  pub longname : Option B
  pub flag : ℤ
  pub description : Option B
  pub helpspec : Option B
  pub opt : LongOption
  pub func : Option F
  pub udata : Option D

pub record Commands (B F D : Type 0) : Type 0 where
  pub progname : Option B
  pub commands : List (Cmd B F D)
  pub options : List LongOption

-- 0, or a code of the generated diag.h with the number that is added to it.
pub data Ret : Type 0 where
  success : Ret
  add_cmd ctx_init : ℕ → Ret

-- `isalnum` in the C locale
unfoldable pub isalnum : ℤ → Bool
isalnum (negsuc n) = false
isalnum (pos c) = leb b'0' c && leb c b'9' || leb b'A' c && leb c b'Z' || leb b'a' c && leb c b'z'

-- A number as `%c` prints it.
unfoldable pub char : ℤ → ℕ
char (pos c) = c
char (negsuc n) = 0

abbrev pub zero_option : LongOption
zero_option = record { name = []; has_arg = 0; flag = none; val = pos 0 }

-- `array_get`
unfoldable pub array_get {ℓ} : {A : Type ℓ} → List A → ℤ → Option A
array_get xs (negsuc n) = none
array_get [] (pos n) = none
array_get (x ∷ xs) (pos zero) = some x
array_get (x ∷ xs) (pos (suc n)) = array_get xs (pos n)

module _ {B F D : Type 0} where
  -- `mncommand_cmd_init`, which clears the command
  abbrev pub mncommand_cmd_init : Cmd B F D
  mncommand_cmd_init = record {
    longname = none;
    flag = pos 0;
    description = none;
    helpspec = none;
    opt = zero_option;
    func = none;
    udata = none;
  }

  -- The loop of `mncommand_ctx_find_cmd`
  unfoldable pub find_val : List (Cmd B F D) → ℤ → Option (Cmd B F D)
  unfolding eqb_ℤ
  find_val [] ch = none
  find_val (c ∷ cs) ch = let rest = find_val cs ch in if eqb_ℤ c.opt.val ch then some c else rest

  unfoldable pub mncommand_ctx_find_cmd : Commands B F D → ℤ → ℤ → Option (Cmd B F D)
  unfolding find_val array_get
  mncommand_ctx_find_cmd ctx curropt optch =
      if eqb_ℤ curropt (negsuc 0)
      then find_val ctx.commands optch
      else array_get ctx.commands curropt

-- The strings that a command releases.
unfoldable pub mncommand_cmd_fini : {B F D : Type 0} → Cmd B F D → Cmd B F D
mncommand_cmd_fini cmd = record cmd { longname = none; description = none; helpspec = none }

-- `init_ok` tells for the two `array_init` whether they return 0.
unfoldable pub mncommand_ctx_init :
    {B F D : Type 0} → Bool → Bool → Commands B F D → Commands B F D × Ret
mncommand_ctx_init commands_ok options_ok ctx =
    let ctx1 = record ctx { progname = none } in
    let ctx2 = record ctx1 { commands = [] } in
    let ctx3 = record ctx2 { options = [] } in
    if not commands_ok
    then (ctx1, ctx_init 1)
    else if not options_ok
    then (ctx2, ctx_init 2)
    else (ctx3, success)

module _ {B F D : Type 0} (M : MnBytes B) where
  open M use {from_str, from_bytes, cdata}

  -- `namespec` of `mncommand_cmd_compute_helpspec`
  unfoldable pub namespec : Cmd B F D → B
  unfolding isalnum char
  namespec cmd =
      let v = cmd.opt.val in
      elim cmd.longname [
        | some l ↦
            if isalnum v
            then from_str (codes "--" ++ cdata l ++ codes "|-" ++ char v ∷ [])
            else from_str (codes "--" ++ cdata l)
        | none ↦ if isalnum v then from_str (codes "-" ++ char v ∷ []) else from_str (codes "--")
      ]

  abbrev pub argspec : Cmd B F D → B
  argspec cmd = if cmd.opt.has_arg == 0 then from_str [] else from_str (codes "ARG")

  unfoldable pub mncommand_cmd_compute_helpspec : Cmd B F D → Cmd B F D
  unfolding namespec
  mncommand_cmd_compute_helpspec cmd = record cmd {
    helpspec = some (from_str (cdata (namespec cmd) ++ codes " " ++ cdata (argspec cmd)));
  }

  -- The command that `mncommand_ctx_add_cmd` fills in.
  unfoldable pub new_cmd : B → ℤ → ℕ → Option B → Option F → Option D → Cmd B F D
  unfolding mncommand_cmd_compute_helpspec
  new_cmd longname shortname has_arg description func udata =
      let name = from_bytes longname in
      mncommand_cmd_compute_helpspec (record mncommand_cmd_init {
        longname = some name;
        description = elim description [ none ↦ none | some d ↦ some (from_bytes d) ];
        func = func;
        udata = udata;
        opt = record { name = cdata name; has_arg = has_arg; flag = none; val = shortname };
      })

  -- `can_grow` tells whether `array_incr` finds the memory for one element more. A failed assertion
  -- is `none`.
  unfoldable pub mncommand_ctx_add_cmd :
      (ℕ → Bool)
      → (ℕ → Bool)
      → Commands B F D
      → Option B
      → ℤ
      → ℕ
      → Option B
      → Option F
      → Option D
      → Option (Commands B F D × Ret)
  unfolding new_cmd
  mncommand_ctx_add_cmd cmds_grow opts_grow ctx longname shortname has_arg description func udata =
      if not (cmds_grow (length ctx.commands)) then some (ctx, add_cmd 1) else elim longname [
        | none ↦ none
        | some l ↦
            let cmd = new_cmd l shortname has_arg description func udata in
            let added = record ctx { commands = ctx.commands ++ cmd ∷ [] } in
            if not (opts_grow (length ctx.options))
            then some (added, add_cmd 2)
            else some (record added { options = ctx.options ++ cmd.opt ∷ [] }, success)
      ]
