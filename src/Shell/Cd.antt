-- ===== src/Shell/Cd.antt =====
-- The command `cd` of sh/hivexsh.c, and `print_node_path`.
use hivex.Base.{
  ℕ, zero, suc, Bool, not, ◌&&◌, Option, none, some, List, [], ◌∷◌, ◌++◌, ◌==◌, if◌then◌else◌,
  length,
}
use hivex.Hive.{stuck, ok, err, trap, Read}
use hivex.Hive.Reader.{◌>>=◌, pure, stop}
use hivex.Node.{hivex_root, node_name, node_parent}
use hivex.Children.{node_get_child}
use hivex.CString.{c_string}
use hivex.Shell.Text.{split_at, streq}

-- The result of a call, 0 for an error.
unfoldable pub or_zero : Read ℕ → Read ℕ
or_zero r h = elim (r h) [ ok n ↦ ok n | err e ↦ ok 0 | trap t ↦ trap t ]

abbrev pub is_separator : ℕ → Bool
is_separator c = c == b'\\'

abbrev pub dot : List ℕ
dot = b'.' ∷ []

abbrev pub dot_dot : List ℕ
dot_dot = b'.' ∷ b'.' ∷ []

-- From one node by one element of a path; 0 when there is no such node.
unfoldable pub enter : ℕ → ℕ → List ℕ → Read ℕ
enter root cwd elem =
    if streq elem dot
    then pure cwd
    else if streq elem dot_dot
    then (if cwd == root then pure cwd else or_zero (node_parent cwd))
    else or_zero (node_get_child cwd elem)

-- The elements `.` and `..` never fail, whatever the node is afterwards.
unfoldable pub is_lookup : List ℕ → Bool
is_lookup elem = not (streq elem dot) && not (streq elem dot_dot)

-- What follows the separator, if the path goes on.
abbrev pub after_separator : List ℕ → List ℕ
after_separator [] = []
after_separator (c ∷ cs) = cs

-- The `while` loop; `none` when a subkey is not found.
unfoldable pub cd_loop : ℕ → ℕ → List ℕ → ℕ → Read (Option ℕ)
cd_loop fuel root [] new_cwd = pure (some new_cwd)
cd_loop zero root (c ∷ cs) new_cwd = stop stuck
cd_loop (suc fuel) root (c ∷ cs) new_cwd =
    let path = c ∷ cs in
    let r = split_at is_separator path in
    if is_separator c then cd_loop fuel root cs new_cwd else (do
      next ← enter root new_cwd r.0
      if is_lookup r.0 && (next == 0)
          then pure none
          else cd_loop fuel root (after_separator r.1) next)

-- A path that begins with a separator begins at the root.
unfoldable pub cd_path : ℕ → List ℕ → ℕ → Read (Option ℕ)
cd_path root [] cwd = cd_loop 0 root [] cwd
cd_path root (c ∷ cs) cwd =
    if is_separator c
    then cd_loop (length cs) root cs root
    else cd_loop (length (c ∷ cs)) root (c ∷ cs) cwd

-- The name as it is printed, nothing when it cannot be read.
unfoldable pub printed_name : ℕ → Read (List ℕ)
printed_name node h = elim (node_name node h) [
  | ok name ↦ ok (c_string name)
  | err e ↦ ok []
  | trap t ↦ trap t
]

-- `print_node_path`, for a path of at most `fuel` nodes.
unfoldable pub node_path : ℕ → ℕ → Read (List ℕ)
node_path zero node = stop stuck
node_path (suc fuel) node = do
  root ← or_zero hivex_root
  if node == root then pure (b'\\' ∷ []) else (do
    parent ← or_zero (node_parent node)
    if parent == 0 then pure [] else (do
      path ← node_path fuel parent
      name ← printed_name node
      pure (path ++ ((if parent == root then [] else b'\\' ∷ []) ++ name))))

-- A path without cycles has fewer nodes than the image has bytes.
unfoldable pub full_path : ℕ → Read (List ℕ)
full_path node h = node_path (suc h.size) node h
