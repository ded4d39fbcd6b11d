-- ===== src/Sandbox/Grammar.antt =====
-- A reader of bwrap command lines, for those options that the launcher of
-- coder-dlp-compositor/src/sandbox_launcher.c uses, with the arity that bwrap documents for each.
-- It is a description that the command line is held against; it stands for no code of the repository.
use coder_desktop_linux.Common.{
  ℕ, zero, suc, ◌≡◌, refl, Option, none, some, List, [], ◌∷◌, ◌++◌, String, str_eq, if◌then◌else◌,
  length, ◌>>=◌, append_assoc,
}

pub data Op : Type 0 where
  ro_bind bind dev_bind : String → String → Op
  dev proc tmpfs : String → Op
  unshare_pid unshare_ipc unshare_net : Op
  set_env : String → String → Op
  unset_env : String → Op
  die_with_parent new_session : Op

abbrev pub print_op : Op → List String
print_op (ro_bind src dst) = "--ro-bind" ∷ src ∷ dst ∷ []
print_op (bind src dst) = "--bind" ∷ src ∷ dst ∷ []
print_op (dev_bind src dst) = "--dev-bind" ∷ src ∷ dst ∷ []
print_op (dev path) = "--dev" ∷ path ∷ []
print_op (proc path) = "--proc" ∷ path ∷ []
print_op (tmpfs path) = "--tmpfs" ∷ path ∷ []
print_op unshare_pid = "--unshare-pid" ∷ []
print_op unshare_ipc = "--unshare-ipc" ∷ []
print_op unshare_net = "--unshare-net" ∷ []
print_op (set_env name value) = "--setenv" ∷ name ∷ value ∷ []
print_op (unset_env name) = "--unsetenv" ∷ name ∷ []
print_op die_with_parent = "--die-with-parent" ∷ []
print_op new_session = "--new-session" ∷ []

abbrev pub print_ops : List Op → List String
print_ops [] = []
print_ops (op ∷ ops) = print_op op ++ print_ops ops

pub print_ops-append : (xs ys : List Op) → print_ops (xs ++ ys) ≡ print_ops xs ++ print_ops ys
print_ops-append [] ys = refl
print_ops-append (op ∷ xs) ys = simp (print_ops-append xs ys, append_assoc)

-- The option with no argument, one or two that a word names.
nullary : String → Option Op
nullary word =
    if str_eq word "--unshare-pid"
    then some unshare_pid
    else if str_eq word "--unshare-ipc"
    then some unshare_ipc
    else if str_eq word "--unshare-net"
    then some unshare_net
    else if str_eq word "--die-with-parent"
    then some die_with_parent
    else if str_eq word "--new-session"
    then some new_session
    else none

unary : String → Option (String → Op)
unary word =
    if str_eq word "--dev"
    then some dev
    else if str_eq word "--proc"
    then some proc
    else if str_eq word "--tmpfs"
    then some tmpfs
    else if str_eq word "--unsetenv"
    then some unset_env
    else none

binary : String → Option (String → String → Op)
binary word =
    if str_eq word "--ro-bind"
    then some ro_bind
    else if str_eq word "--bind"
    then some bind
    else if str_eq word "--dev-bind"
    then some dev_bind
    else if str_eq word "--setenv"
    then some set_env
    else none

read_binary : String → List String → Option (Op × List String)
read_binary word (x ∷ y ∷ rest) = elim (binary word) [ none ↦ none | some f ↦ some (f x y, rest) ]
read_binary word _ = none

read_unary : String → List String → Option (Op × List String)
read_unary word [] = none
read_unary word (x ∷ rest) = elim (unary word) [
  | none ↦ read_binary word (x ∷ rest)
  | some f ↦ some (f x, rest)
]

-- The option at the front of a command line, with its arguments.
read_op : List String → Option (Op × List String)
unfolding nullary unary binary read_binary read_unary
read_op [] = none
read_op (word ∷ rest) = elim (nullary word) [
  | none ↦ read_unary word rest
  | some op ↦ some (op, rest)
]

-- All options up to `--`, and the command behind it. The fuel is the number of options.
pub parse : ℕ → List String → Option (List Op × List String)
parse fuel [] = none
parse zero (word ∷ rest) = if str_eq word "--" then some ([], rest) else none
parse (suc fuel) (word ∷ rest) =
    let more = do
      (op, rest') ← read_op (word ∷ rest)
      (ops, command) ← parse fuel rest'
      some (op ∷ ops, command)
    in if str_eq word "--" then some ([], rest) else more

read_op-print_op : (op : Op) (rest : List String) → read_op (print_op op ++ rest) ≡ some (op, rest)
unfolding read_op
read_op-print_op (ro_bind x y) rest = refl
read_op-print_op _ rest = refl

parse-print_op :
    (op : Op) (fuel : ℕ) (rest : List String)
    → parse (suc fuel) (print_op op ++ rest)
      ≡ (do (ops, command) ← parse fuel rest; some (op ∷ ops, command))
unfolding parse read_op
parse-print_op (ro_bind x y) fuel rest = refl
parse-print_op _ fuel rest = refl

-- What is printed is read back, whatever the arguments of the options are.
pub parse-print_ops :
    (ops : List Op) (command : List String)
    → parse (length ops) (print_ops ops ++ "--" ∷ command) ≡ some (ops, command)
unfolding parse
parse-print_ops [] command = refl
parse-print_ops (op ∷ ops) command = rw (
  append_assoc,
  parse-print_op op (length ops) (print_ops ops ++ "--" ∷ command),
  parse-print_ops ops command,
)
