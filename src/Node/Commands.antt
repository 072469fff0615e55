-- ===== src/Node/Commands.antt =====
-- cmd/node/cli.go: a line of input is split into arguments, of which the first names the command.
-- What a command prints is left out.
pub mod Split
use d7024e_lab.Prelude.{
  Bool, List, Option, [], false, if◌then◌else◌, leb, length, map, none, some, true, ℕ, ◌&&◌, ◌++◌,
  ◌-◌, ◌==◌, ◌||◌, ◌∷◌,
}
use d7024e_lab.Prelude.Bytes.{Bytes, bytes_eq}
use d7024e_lab.Prelude.Bytes.Text.{text, trim_space}

unfoldable pub in_range : ℕ → ℕ → ℕ → Bool
in_range lo hi c = leb lo c && leb c hi

all_hex : Bytes → Bool
unfolding in_range
all_hex [] = true
all_hex (c ∷ cs) = (in_range b'0' b'9' c || in_range b'a' b'f' c) && all_hex cs

unfoldable pub is_canonical_hex_hash : Bytes → Bool
unfolding all_hex
is_canonical_hex_hash h = length h == 64 && all_hex h

unfoldable pub is_quote_char : ℕ → Bool
is_quote_char c = c == 34 || c == 39

unfoldable pub is_blank : ℕ → Bool
is_blank c = c == 32 || c == 9

-- `if current.Len() > 0 { args = append(args, current.String()) }`
unfoldable pub flush : Bytes → List Bytes
flush [] = []
flush (c ∷ cs) = (c ∷ cs) ∷ []

-- The loop of `splitCommandArgs`: the rest of the line, the quote that is open, and the argument
-- that was read so far.
unfoldable pub split_from : Bytes → Option ℕ → Bytes → List Bytes
unfolding flush is_quote_char is_blank
split_from [] quote current = flush current
split_from (c ∷ cs) (some q) current = elim (c == q) [
  | true ↦ split_from cs none current
  | false ↦ split_from cs (some q) (current ++ (c ∷ []))
]
split_from (c ∷ cs) none current = elim (is_quote_char c) [
  | true ↦ split_from cs (some c) current
  | false ↦ elim (is_blank c) [
    | true ↦ flush current ++ split_from cs none []
    | false ↦ split_from cs none (current ++ (c ∷ []))
  ]
]

unfoldable pub split_command_args : Bytes → List Bytes
unfolding split_from
split_command_args s = split_from s none []

-- The commands of `Execute`, with their arguments.
pub data Command : Type 0 where
  nothing exit_cli show_help : Command
  unknown_command : Bytes → Command
  ping_command put_command get_command forget_command show_command publish_command install_command
        keygen_command set_command :
      List Bytes → Command

-- `strings.ToUpper`, of ASCII.
unfoldable pub upper_byte : ℕ → ℕ
unfolding in_range
upper_byte c = if in_range b'a' b'z' c then c - 32 else c

unfoldable pub is_one_of : Bytes → Bytes → Bytes → Bool
is_one_of s a b = bytes_eq s a || bytes_eq s b

-- The switch, on the name in upper case.
unfoldable pub choose_command : Bytes → Bytes → List Bytes → Command
unfolding is_one_of
choose_command name cmd args =
    if is_one_of cmd (text "EXIT") (text "QUIT")
    then exit_cli
    else if is_one_of cmd (text "HELP") (text "?")
    then show_help
    else if bytes_eq cmd (text "PING")
    then ping_command args
    else if bytes_eq cmd (text "PUT")
    then put_command args
    else if bytes_eq cmd (text "GET")
    then get_command args
    else if bytes_eq cmd (text "FORGET")
    then forget_command args
    else if bytes_eq cmd (text "SHOW")
    then show_command args
    else if is_one_of cmd (text "RT") (text "ROUTING")
    then show_command (text "rt" ∷ [])
    else if is_one_of cmd (text "DS") (text "DATASTORE")
    then show_command (text "ds" ∷ [])
    else if bytes_eq cmd (text "PUBLISH")
    then publish_command args
    else if bytes_eq cmd (text "INSTALL")
    then install_command args
    else if bytes_eq cmd (text "KEYGEN")
    then keygen_command args
    else if bytes_eq cmd (text "SET")
    then set_command args
    else unknown_command name

unfoldable pub of_fields : List Bytes → Command
unfolding choose_command upper_byte
of_fields [] = nothing
of_fields (name ∷ args) = choose_command name (map upper_byte name) args

-- `Execute`, up to the call of the handler.
unfoldable pub parse_command : Bytes → Command
unfolding of_fields split_command_args
parse_command line = of_fields (split_command_args (trim_space line))
