-- ===== src/Shell/Names.antt =====
-- The names of the commands, which `dispatch` in sh/hivexsh.c compares without regard to case.
use hivex.Base.{ℕ, Bool, List, [], ◌∷◌}
use hivex.CString.{strcaseeq}

-- `STRCASEEQ (cmd, "add")`, and so on for each command.
module _ (cmd : List ℕ) where
  unfoldable pub named_add : Bool
  named_add = strcaseeq cmd (b'a' ∷ b'd' ∷ b'd' ∷ [])

  unfoldable pub named_cd : Bool
  named_cd = strcaseeq cmd (b'c' ∷ b'd' ∷ [])

  unfoldable pub named_close : Bool
  named_close = strcaseeq cmd (b'c' ∷ b'l' ∷ b'o' ∷ b's' ∷ b'e' ∷ [])

  unfoldable pub named_unload : Bool
  named_unload = strcaseeq cmd (b'u' ∷ b'n' ∷ b'l' ∷ b'o' ∷ b'a' ∷ b'd' ∷ [])

  unfoldable pub named_commit : Bool
  named_commit = strcaseeq cmd (b'c' ∷ b'o' ∷ b'm' ∷ b'm' ∷ b'i' ∷ b't' ∷ [])

  unfoldable pub named_del : Bool
  named_del = strcaseeq cmd (b'd' ∷ b'e' ∷ b'l' ∷ [])

  unfoldable pub named_ls : Bool
  named_ls = strcaseeq cmd (b'l' ∷ b's' ∷ [])

  unfoldable pub named_lsval : Bool
  named_lsval = strcaseeq cmd (b'l' ∷ b's' ∷ b'v' ∷ b'a' ∷ b'l' ∷ [])

  unfoldable pub named_setval : Bool
  named_setval = strcaseeq cmd (b's' ∷ b'e' ∷ b't' ∷ b'v' ∷ b'a' ∷ b'l' ∷ [])

  unfoldable pub named_help : Bool
  named_help = strcaseeq cmd (b'h' ∷ b'e' ∷ b'l' ∷ b'p' ∷ [])

  unfoldable pub named_load : Bool
  named_load = strcaseeq cmd (b'l' ∷ b'o' ∷ b'a' ∷ b'd' ∷ [])

  unfoldable pub named_exit : Bool
  named_exit = strcaseeq cmd (b'e' ∷ b'x' ∷ b'i' ∷ b't' ∷ [])

  unfoldable pub named_q : Bool
  named_q = strcaseeq cmd (b'q' ∷ [])

  unfoldable pub named_quit : Bool
  named_quit = strcaseeq cmd (b'q' ∷ b'u' ∷ b'i' ∷ b't' ∷ [])
