-- ===== src/Client/Dialog.antt =====
-- src/client/client.c: the commands that the user types.
use tpe_socks.Prelude.{
  ℕ, zero, suc, ◌+◌, ◌-◌, ◌||◌, Option, none, some, List, [], ◌∷◌, ◌++◌, ◌==◌, if◌then◌else◌, ◌>>=◌,
  length, str_eq, store_all, take, codes,
}
use tpe_socks.Prelude.Int.{ℤ, pos, negsuc}
use tpe_socks.Control.Strtok.{strtok}
use tpe_socks.Client.{
  Text, command_add_user, command_delete_user, command_edit_password, command_list_users, maxlen,
  Client, print, zeros, terminated, single_arg_command, double_arg_command, dissector,
}
use tpe_socks.Client.Listing.{list_users, obtain_metrics}

-- What `fgets` reads with room for `n` bytes: up to the end of a line, and what is left.
unfoldable pub line_of : ℕ → List ℕ → List ℕ × List ℕ
line_of zero xs = ([], xs)
line_of (suc n) [] = ([], [])
line_of (suc n) (x ∷ xs) =
    let (line, rest) = line_of n xs in if x == 10 then (x ∷ [], xs) else (x ∷ line, rest)

-- The array is changed only if something was read.
unfoldable pub stored_line : List ℕ → List ℕ → List ℕ
stored_line buf [] = buf
stored_line buf (x ∷ xs) = store_all buf 0 (x ∷ (xs ++ 0 ∷ []))

unfoldable pub fgets : List ℕ → List ℕ → List ℕ × List ℕ
unfolding line_of stored_line
fgets buf stdin = let (line, rest) = line_of (maxlen - 1) stdin in (stored_line buf line, rest)

abbrev pub without_last : List ℕ → List ℕ
without_last xs = take (length xs - 1) xs

-- The string in the array after `buf[strlen(buf)-1] = '\0'`; with an empty string the store is
-- before the array.
unfoldable pub drop_last : List ℕ → Option Text
unfolding terminated
drop_last buf =
    terminated buf >>= λ text. if length text == 0 then none else some (without_last text)

abbrev pub command_str : List Text
command_str =
    codes "help"
    ∷ codes "adduser"
    ∷ codes "deleteuser"
    ∷ codes "editpass"
    ∷ codes "list"
    ∷ codes "metrics"
    ∷ codes "dis"
    ∷ codes "disoff"
    ∷ codes "exit"
    ∷ []

-- The place of a name in the table, from 1 on, or -1.
unfoldable pub find_command : List Text → ℕ → Text → ℤ
find_command [] i name = negsuc 0
find_command (x ∷ xs) i name = if str_eq x name then pos (i + 1) else find_command xs (suc i) name

abbrev pub say : Text → Client → Client
say text c = print (text ++ 10 ∷ []) c

-- What a command that was answered says, for the command in `cmd`, and whether the dialog is over.
unfoldable pub analyze_return : ℤ → ℕ → Client → ℕ × Client
unfolding print
analyze_return cmd ret c =
    if ret == b'x'
    then (1, say (codes "Unexpected server error. Closing...") c)
    else if ret == b'i'
    then (
      0,
      elim cmd [
        | pos n ↦ if (n == 1) || (n == 6) || (n == 9) then c else say (codes "OK!") c
        | negsuc _ ↦ say (codes "OK!") c
      ],
    )
    else if ret == b'n'
    then (1, c)
    else if ret == b'5'
    then (0, say (codes "Error: user already exists") c)
    else if ret == b'1'
    then (0, say (codes "Error: command needs data") c)
    else if ret == b'7'
    then (1, say (codes "Unexpected server error") c)
    else if ret == b'4'
    then (0, say (codes "Error: user does not exist") c)
    else if ret == b'3'
    then (0, say (codes "Error: invalid format") c)
    else if ret == b'2'
    then (0, say (codes "Error: command doesn't allow data") c)
    else if ret == b'6'
    then (0, say (codes "Error: user limit reached") c)
    else (0, c)

-- What the stack holds where the program reads before it writes.
pub record Stack : Type 0 where
  pub ret : ℕ
  pub response_buf : List ℕ

abbrev help_lines : List Text
help_lines =
    (codes "Welcome to SCALO_NET! The available commands are the following:" ++ 10 ∷ 10 ∷ [])
    ∷ (codes " - adduser <user> <pass>: adds a new user to socks5 server" ++ 10 ∷ 10 ∷ [])
    ∷ (codes " - deleteuser <user>: delete an existing user from socks5 server" ++ 10 ∷ 10 ∷ [])
    ∷ (codes " - editpass <user> <newpass>: edits add existing user password's" ++ 10 ∷ 10 ∷ [])
    ∷ (codes " - list: list all users of socks5 server" ++ 10 ∷ 10 ∷ [])
    ∷ (codes " - metrics: displays server usage metrics" ++ 10 ∷ 10 ∷ [])
    ∷ (codes " - dis: turns on the pop3 password dissector" ++ 10 ∷ 10 ∷ [])
    ∷ (codes " - disoff: turns off the pop3 password dissector" ++ 10 ∷ 10 ∷ [])
    ∷ (codes " - exit: bye bye!" ++ 10 ∷ [])
    ∷ []

unfoldable pub help : Client → Client
help c = record c { printed = c.printed ++ help_lines }

abbrev pub not_enough_args : Client → ℕ × Client
not_enough_args c = (0, say (codes "Not enough arguments. Check out \"help\"!") c)

abbrev pub too_many_args : Client → ℕ × Client
too_many_args c = (0, say (codes "Too many arguments. Check out \"help\"!") c)

abbrev pub invalid_command : Client → ℕ × Client
invalid_command c = (0, say (codes "Please, enter a valid command") c)

-- The arguments of a command: `strtok(NULL, " ")` as often as the command asks.
pub data Args : Type 0 where
  missing extra : Args
  given : List Text → Args

unfoldable pub get_args : ℕ → List ℕ → Args
unfolding strtok
get_args zero rest = elim (strtok 32 rest) [ none ↦ Args.given [] | some _ ↦ Args.extra ]
get_args (suc n) rest = elim (strtok 32 rest) [
  | none ↦ Args.missing
  | some (arg, rest') ↦ elim (get_args n rest') [
    | Args.missing ↦ Args.missing
    | Args.extra ↦ Args.extra
    | Args.given args ↦ Args.given (arg ∷ args)
  ]
]

-- `return analyze_return(ret)` behind a command that may fault.
unfoldable pub analyzed : ℤ → Option (ℕ × Client) → Option (ℕ × Client)
unfolding analyze_return
analyzed cmd none = none
analyzed cmd (some (ret, c)) = some (analyze_return cmd ret c)

unfoldable pub double_by :
    ℕ → ℤ → (Client → ℕ × Client) → Args → List ℕ → Client → Option (ℕ × Client)
double_by command cmd error Args.missing stack c = some (not_enough_args c)
double_by command cmd error Args.extra stack c = some (error c)
double_by command cmd error (Args.given (u ∷ p ∷ _)) stack c =
    analyzed cmd (double_arg_command command u p stack c)
double_by command cmd error (Args.given _) stack c = none

unfoldable pub single_by : ℕ → ℤ → Args → List ℕ → Client → Option (ℕ × Client)
single_by command cmd Args.missing stack c = some (not_enough_args c)
single_by command cmd Args.extra stack c = some (too_many_args c)
single_by command cmd (Args.given (u ∷ _)) stack c =
    analyzed cmd (single_arg_command command u stack c)
single_by command cmd (Args.given []) stack c = none

unfoldable pub simple_by : ℤ → Args → Client → Option (ℕ × Client) → Option (ℕ × Client)
unfolding analyzed
simple_by cmd (Args.given _) c r = analyzed cmd r
simple_by cmd _ c r = some (invalid_command c)

-- The `switch` on the command, for what is left of the line behind its name.
unfoldable pub run_command : ℤ → List ℕ → Stack → Client → Option (ℕ × Client)
run_command (negsuc _) rest stack c = some (invalid_command c)
run_command (pos cmd) rest stack c =
    if cmd == 1
    then analyzed (pos 1) (some (stack.ret, help c))
    else if cmd == 2
    then double_by command_add_user (pos 2) too_many_args (get_args 2 rest) stack.response_buf c
    else if cmd == 3
    then single_by command_delete_user (pos 3) (get_args 1 rest) stack.response_buf c
    else if cmd == 4
    then double_by command_edit_password (pos 4) invalid_command (get_args 2 rest)
        stack.response_buf c
    else if cmd == 5
    then simple_by (pos 5) (get_args 0 rest) c (list_users command_list_users c)
    else if cmd == 6
    then simple_by (pos 6) (get_args 0 rest) c (obtain_metrics stack.response_buf c)
    else if cmd == 7
    then simple_by (pos 7) (get_args 0 rest) c (some (dissector 1 stack.response_buf c))
    else if cmd == 8
    then simple_by (pos 8) (get_args 0 rest) c (some (dissector 0 stack.response_buf c))
    else if cmd == 9
    then some (1, say (codes "Bye!") c)
    else some (invalid_command c)

-- A line that was read; a null pointer for its first word is a fault.
unfoldable pub run_line : Text → Stack → Client → Option (ℕ × Client)
run_line line stack c =
    strtok 32 line >>= λ (name, rest). run_command (find_command command_str 0 name) rest stack c

unfoldable pub new_command : Stack → Client → Option (ℕ × Client)
new_command stack c =
    let (buf, rest) = fgets (zeros maxlen) c.stdin in
    drop_last buf >>= λ line. run_line line stack (record c { stdin = rest })
