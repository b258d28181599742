-- ===== src/Command/Add.antt =====
-- Commands that `mncommand_ctx_add_cmd` added are found again.
use mnapp.Command.Defs.{
  Commands, Cmd, success, add_cmd, find_val, array_get, mncommand_ctx_find_cmd,
  mncommand_ctx_add_cmd, new_cmd,
}
use mnapp.Shared.MnBytes.{MnBytes}
use mnapp.Shared.Int.{ℤ, pos, negsuc, eqb_ℤ}
use mnapp.Shared.{
  or_else, ℕ, suc, ◌≡◌, refl, ap, ◌∙◌, Bool, true, false, if◌then◌else◌, Option, none, some, List,
  [], ◌∷◌, ◌++◌, length, length-append, arith, map,
}

array_get-length {ℓ} :
    {A : Type ℓ} (xs : List A) (x : A) → array_get (xs ++ x ∷ []) (pos (length xs)) ≡ some x
unfolding array_get
array_get-length [] x = refl
array_get-length (y ∷ xs) x = array_get-length xs x

-- What `find_val` finds in front is found first.
find_val-append :
    {B F D : Type 0} (cs ds : List (Cmd B F D)) (ch : ℤ)
    → find_val (cs ++ ds) ch ≡ or_else (find_val cs ch) (find_val ds ch)
unfolding find_val or_else
find_val-append [] ds ch = refl
find_val-append (c ∷ cs) ds ch = ground (arith, find_val-append cs ds ch)

length-map : {A B : Type 0} (f : A → B) (xs : List A) → length (map f xs) ≡ length xs
length-map f [] = refl
length-map f (x ∷ xs) = ap suc (length-map f xs)

-- The first command with that letter.
unfoldable pub first_with : {B F D : Type 0} → ℤ → List (Cmd B F D) → Option (Cmd B F D)
first_with ch [] = none
first_with ch (c ∷ cs) = if eqb_ℤ c.opt.val ch then some c else first_with ch cs

find_val-first_with :
    {B F D : Type 0} (cs : List (Cmd B F D)) (ch : ℤ) → find_val cs ch ≡ first_with ch cs
unfolding find_val first_with
find_val-first_with [] ch = refl
find_val-first_with (c ∷ cs) ch = ground (arith, find_val-first_with cs ch)

-- The options that `getopt_long` reads are those of the commands, in the same order.
abbrev pub IsInStep : {B F D : Type 0} → Commands B F D → Type 0
IsInStep ctx = ctx.options ≡ map (λ c. c.opt) ctx.commands

map-append {ℓ κ} :
    {A : Type ℓ} {B : Type κ} (f : A → B) (xs : List A) (x : A)
    → map f (xs ++ x ∷ []) ≡ map f xs ++ f x ∷ []
map-append f [] x = refl
map-append f (y ∷ xs) x = ap (λ r. f y ∷ r) (map-append f xs x)

module _ {B F D : Type 0} (M : MnBytes B) (cmds_grow opts_grow : ℕ → Bool) where
  -- What is found by the index of the new command, and by any letter.
  pub record IsAdded (ctx added : Commands B F D) (shortname : ℤ) (cmd : Cmd B F D) : Type 0 where
    pub in_step : IsInStep added
    pub by_index : mncommand_ctx_find_cmd added (pos (length ctx.commands)) (pos 0) ≡ some cmd
    pub by_val :
        (ch : ℤ)
        → mncommand_ctx_find_cmd added (negsuc 0) ch
          ≡ or_else (first_with ch ctx.commands) (if eqb_ℤ shortname ch then some cmd else none)

  -- Where the options are in step with the commands and both arrays grow, mncommand_ctx_add_cmd
  -- succeeds, and they stay in step. The index of the new command finds it; a letter finds the first
  -- earlier command with it, or else the new command, if the letter is its short name.
  pub mncommand_ctx_add_cmd-IsAdded :
      (ctx : Commands B F D) (longname : B) (shortname : ℤ) (has_arg : ℕ) (description : Option B)
      (func : Option F) (udata : Option D)
      → IsInStep ctx
      → cmds_grow (length ctx.commands) ≡ true
      → opts_grow (length ctx.options) ≡ true
      → (added : Commands B F D) × (mncommand_ctx_add_cmd M cmds_grow opts_grow ctx
            (some longname)
            shortname
            has_arg
            description
            func
            udata
          ≡ some (added, success))
        × IsAdded ctx added shortname (new_cmd M longname shortname has_arg description func udata)
  unfolding mncommand_ctx_add_cmd mncommand_ctx_find_cmd find_val new_cmd
  mncommand_ctx_add_cmd-IsAdded ctx l sh ha d f u step g1 g2 =
      let cmd = new_cmd M l sh ha d f u in
      rw (g1, g2)
        (
          record {
            progname = ctx.progname;
            commands = ctx.commands ++ cmd ∷ [];
            options = ctx.options ++ cmd.opt ∷ [];
          },
          refl,
          record {
            in_step = rw (step, map-append (λ c. c.opt) ctx.commands cmd);
            by_index = array_get-length ctx.commands cmd;
            by_val = λ ch.
                find_val-append ctx.commands (cmd ∷ []) ch
                ∙ ap (λ o. or_else o (find_val (cmd ∷ []) ch))
                    (find_val-first_with ctx.commands ch);
          },
        )

  -- Where only the options cannot grow, mncommand_ctx_add_cmd fails with the command already added:
  -- a context in step is left with one command more than it has options.
  pub mncommand_ctx_add_cmd-out_of_step :
      (ctx : Commands B F D) (longname : B) (shortname : ℤ) (has_arg : ℕ) (description : Option B)
      (func : Option F) (udata : Option D)
      → IsInStep ctx
      → cmds_grow (length ctx.commands) ≡ true
      → opts_grow (length ctx.options) ≡ false
      → (left : Commands B F D) × (mncommand_ctx_add_cmd M cmds_grow opts_grow ctx
            (some longname)
            shortname
            has_arg
            description
            func
            udata
          ≡ some (left, add_cmd 2))
        × (length left.commands ≡ suc (length left.options))
  unfolding mncommand_ctx_add_cmd
  mncommand_ctx_add_cmd-out_of_step ctx l sh ha d f u step g1 g2 =
      let cmd = new_cmd M l sh ha d f u in
      rw (g1, g2)
        (
          record ctx { commands = ctx.commands ++ cmd ∷ [] },
          refl,
          rw (step, length-map, length-append) omega arith,
        )
