-- ===== src/Command/Release.antt =====
-- src/mncommand.c: `mncommand_ctx_fini`, with the strings that it releases.
use mnapp.Command.Defs.{Cmd, Commands}
use mnapp.Shared.Owned.{
  Owned, Releases, decref_any, release_all, owned_any, release_all-append, decref_any-release,
}
use mnapp.Shared.{◌≡◌, refl, ◌∙◌, none, List, [], ◌∷◌, ◌++◌}

module _ {B H W F D : Type 0} (calls : Releases B H W) where
  -- The calls of `mncommand_cmd_fini`.
  unfoldable pub release_cmd : Cmd B F D → W → W
  unfolding decref_any
  release_cmd cmd w =
      decref_any calls cmd.helpspec
        (decref_any calls cmd.description (decref_any calls cmd.longname w))

  -- `array_fini` calls `mncommand_cmd_fini` for each command, in order.
  unfoldable pub release_cmds : List (Cmd B F D) → W → W
  unfolding release_cmd
  release_cmds [] w = w
  release_cmds (cmd ∷ cmds) w = release_cmds cmds (release_cmd cmd w)

  unfoldable pub mncommand_ctx_fini : Commands B F D → W → Commands B F D × W
  unfolding release_cmds decref_any
  mncommand_ctx_fini ctx w = (
    record { progname = none; commands = []; options = [] },
    decref_any calls ctx.progname (release_cmds ctx.commands w),
  )

  cmds_owned : List (Cmd B F D) → List (Owned B)
  cmds_owned [] = []
  cmds_owned (cmd ∷ cmds) =
      (owned_any cmd.longname ++ owned_any cmd.description ++ owned_any cmd.helpspec)
      ++ cmds_owned cmds

  -- The strings of the commands and the name of the program, in order.
  ctx_owned : Commands B F D → List (Owned B)
  ctx_owned ctx = cmds_owned ctx.commands ++ owned_any ctx.progname

  release_cmds-owned :
      (cmds : List (Cmd B F D)) (w : W)
      → release_cmds cmds w ≡ release_all calls (cmds_owned cmds) w
  unfolding release_cmds release_cmd cmds_owned release_all
  release_cmds-owned [] w = refl
  release_cmds-owned (cmd ∷ cmds) w =
      release_cmds-owned cmds (release_cmd cmd w)
      ∙ simp (release_all-append calls, decref_any-release calls)

  -- mncommand_ctx_fini releases every string of the commands and the name of the program.
  mncommand_ctx_fini-release :
      (ctx : Commands B F D) (w : W)
      → (mncommand_ctx_fini ctx w).1 ≡ release_all calls (ctx_owned ctx) w
  unfolding mncommand_ctx_fini ctx_owned
  mncommand_ctx_fini-release ctx w =
      simp (release_cmds-owned, release_all-append calls, decref_any-release calls)
