-- ===== src/Shell/Command.antt =====
-- The commands of sh/hivexsh.c that depend on nothing but the shell.
use hivex.Base.{
  ℕ, Bool, true, false, not, ◌&&◌, ◌||◌, Option, none, some, List, [], ◌∷◌, ◌++◌, leb, ◌==◌,
  if◌then◌else◌,
}
use hivex.Hive.{Hive, Result, ok, err, trap, Read}
use hivex.Node.{hivex_root, node_name}
use hivex.AddChild.{node_add_child}
use hivex.Shell.{
  ℤ, pos, negsuc, success, failure, dies, Act, pure, fail, ◌>>=◌, ◌>>◌, gets, ask, run, modify,
  require, assert, print,
}
use hivex.Shell.Text.{streq}
use hivex.Shell.Lines.{rl_gets}
use hivex.Shell.Cd.{or_zero, cd_path, full_path, is_separator}

abbrev pub is_some {ℓ} : {A : Type ℓ} → Option A → Bool
is_some none = false
is_some (some a) = true

abbrev given_or_empty : Option (List ℕ) → List ℕ
given_or_empty none = []
given_or_empty (some s) = s

-- The prompt when there is a hive: its name and the path of the current node.
unfoldable pub path_prompt : Act (Unit {0})
path_prompt = do
  loaded ← gets (λ s. s.loaded)
  cwd ← gets (λ s. s.cwd)
  assert (is_some loaded)
  assert (not (cwd == 0))
  path ← ask (full_path cwd)
  modify (λ s. record s { prompt = given_or_empty loaded ++ (path ++ (b'>' ∷ b' ' ∷ [])) })

unfoldable pub set_prompt_string : Act (Unit {0})
set_prompt_string s = elim s.h [
  | none ↦ success tt (record s { prompt = b'>' ∷ b' ' ∷ [] })
  | some h ↦ path_prompt s
]

-- What `hivex_open` gives a shell whose previous hive has been closed.
unfoldable pub take_hive : List ℕ → Result Hive → Act (Unit {0})
take_hive name (trap t) s = dies t
take_hive name (err e) s = failure (record s { h = none; loaded = none; cwd = 0 })
take_hive name (ok h) s =
    (do cwd ← ask (or_zero hivex_root); modify (λ s'. record s' { cwd = cwd }); set_prompt_string)
      (record s { h = some h; loaded = some name; cwd = 0 })

-- The name behind the last slash.
unfoldable pub basename : List ℕ → List ℕ
basename [] = []
basename (c ∷ cs) = if has_slash cs then basename cs else if c == b'/' then cs else c ∷ cs
  where
    has_slash : List ℕ → Bool
    has_slash [] = false
    has_slash (d ∷ ds) = d == b'/' || has_slash ds

unfoldable pub cmd_close : List ℕ → Act (Unit {0})
cmd_close args = do
  require (streq args [])
  modify (λ s. record s { h = none; loaded = none; cwd = 0 })
  set_prompt_string

-- The new node of `cd`, if it differs.
unfoldable pub move_to : Option ℕ → Act (Unit {0})
move_to none = fail
move_to (some new_cwd) = do
  cwd ← gets (λ s. s.cwd)
  if new_cwd == cwd
      then pure tt
      else (do modify (λ s. record s { cwd = new_cwd }); set_prompt_string)

abbrev is_doubled : List ℕ → Bool
is_doubled (c ∷ d ∷ cs) = is_separator c && is_separator d
is_doubled _ = false

unfoldable pub cmd_cd : List ℕ → Act (Unit {0})
cmd_cd path = do
  cwd ← gets (λ s. s.cwd)
  if streq path [] then (do text ← ask (full_path cwd); print (text ++ (10 ∷ []))) else (do
    require (not (is_doubled path))
    root ← ask (or_zero hivex_root)
    found ← ask (cd_path root path cwd)
    move_to found)

unfoldable pub names_of : List ℕ → Read (List (List ℕ))
names_of [] h = ok []
names_of (child ∷ children) h = elim (node_name child h) [
  | ok name ↦ elim (names_of children h) [
    | ok names ↦ ok (name ∷ names)
    | err e ↦ err e
    | trap t ↦ trap t
  ]
  | err e ↦ err e
  | trap t ↦ trap t
]

-- `rl_gets`; the end of the input ends the shell.
unfoldable pub read_line : Act (List ℕ)
read_line s = elim (rl_gets s.input) [
  | none ↦ failure (record s { quit = true })
  | some r ↦ success (r.0) (record s { input = r.1 })
]

unfoldable pub expect : {A : Type 0} → Option A → Act A
expect none = fail
expect (some a) = pure a

-- `HIVEX_MAX_VALUES`
abbrev pub max_values : ℕ
max_values = 1000

unfoldable pub count_of : Option ℤ → Option ℕ
count_of none = none
count_of (some (pos n)) = if leb n max_values then some n else none
count_of (some (negsuc n)) = none

unfoldable pub cmd_add : List ℕ → Act (Unit {0})
cmd_add name = do cwd ← gets (λ s. s.cwd); node ← run (node_add_child cwd (some name)); pure tt
