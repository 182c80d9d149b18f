-- ===== src/Control/Commands.antt =====
-- src/controlProtocol/cpCommands.c: the commands of the monitoring protocol and their answers.
--
-- An answer is a block on the heap: the bytes written to it, and the size that was allocated for it.
-- Its calls of `malloc` and `calloc` are taken to succeed.
pub mod Answers
use tpe_socks.Prelude.{
  ℕ, zero, suc, ◌+◌, ◌-◌, ◌*◌, ◌/◌, ◌%◌, ◌^◌, Bool, true, false, Option, none, some, List, [], ◌∷◌,
  ◌++◌, ◌==◌, if◌then◌else◌, set, length, c_string, ltb, codes,
}
use tpe_socks.Prelude.Int.{ℤ, pos, negsuc}
use tpe_socks.Users.{
  Text, User, Users, Alloc, AddUserState, add_ok, add_max_users, add_user_exists, add_error,
  add_user, remove_user, change_password, total_users,
}
use tpe_socks.Metrics.{Metrics, get_current_total, get_historic_total}
use tpe_socks.Control.CommandParser.{CommandParser}
use tpe_socks.Control.Strtok.{strtok}

-- The globals of the server that the commands read and change.
pub record Server : Type 0 where
  pub users : Users
  pub metrics : Metrics
  pub sniffer_on : Bool

-- `enum controlProtStatus`.
abbrev pub status_error : ℕ
status_error = b'0'

abbrev pub status_success : ℕ
status_success = b'1'

-- `enum controlProtErrorCode`.
abbrev pub invalid_password : ℕ
invalid_password = b'0'

abbrev pub command_needs_data : ℕ
command_needs_data = b'1'

abbrev pub no_data_command : ℕ
no_data_command = b'2'

abbrev pub invalid_format : ℕ
invalid_format = b'3'

abbrev pub inexisting_user : ℕ
inexisting_user = b'4'

abbrev pub already_exists : ℕ
already_exists = b'5'

abbrev pub user_limit : ℕ
user_limit = b'6'

abbrev pub general_error : ℕ
general_error = b'7'

-- The written bytes of a heap block and its size.
pub record Answer : Type 0 where
  pub written : List ℕ
  pub size : ℕ

unfoldable pub no_data_status_success_answer : Answer
no_data_status_success_answer = record { written = status_success ∷ 0 ∷ 10 ∷ []; size = 3 }

-- The block has three bytes, and four are written.
unfoldable pub status_failed_answer : ℕ → Answer
status_failed_answer error_code = record {
  written = status_error ∷ 1 ∷ error_code ∷ 10 ∷ [];
  size = 3;
}

-- `strtok(data, ":")` and then `strtok(NULL, "\n")`: after a null pointer there is no string to go on
-- with.
unfoldable pub two_tokens : List ℕ → Option (Text × Text)
unfolding strtok
two_tokens line = elim (strtok b':' line) [
  | none ↦ none
  | some (user, rest) ↦ elim (strtok 10 rest) [
    | none ↦ none
    | some (password, _) ↦ some (user, password)
  ]
]

unfoldable pub add_result : AddUserState → Answer
unfolding no_data_status_success_answer status_failed_answer
add_result add_max_users = status_failed_answer user_limit
add_result add_user_exists = status_failed_answer already_exists
add_result add_ok = no_data_status_success_answer
add_result add_error = status_failed_answer general_error

unfoldable pub add_proxy_user : Alloc → CommandParser → Server → Answer × Server
unfolding status_failed_answer two_tokens add_result add_user
add_proxy_user alloc parser s =
    if parser.has_data == 0
    then (status_failed_answer command_needs_data, s)
    else elim (two_tokens (c_string parser.buf)) [
      | none ↦ (status_failed_answer invalid_format, s)
      | some (user, password) ↦
          let (result, users') = add_user alloc s.users user password in
          (add_result result, record s { users = users' })
    ]

unfoldable pub by_status : ℤ → Answer
unfolding no_data_status_success_answer status_failed_answer
by_status (pos _) = no_data_status_success_answer
by_status (negsuc _) = status_failed_answer inexisting_user

-- The end of the line is overwritten by a terminator.
unfoldable pub remove_proxy_user : CommandParser → Server → Answer × Server
unfolding status_failed_answer by_status remove_user
remove_proxy_user parser s =
    if parser.has_data == 0
    then (status_failed_answer command_needs_data, s)
    else (let (result, users') =
          remove_user s.users (some (c_string (set parser.buf (parser.data_size - 1) 0))) in
        (by_status result, record s { users = users' }))

unfoldable pub change_password_command : CommandParser → Server → Answer × Server
unfolding status_failed_answer by_status two_tokens change_password
change_password_command parser s =
    if parser.has_data == 0
    then (status_failed_answer command_needs_data, s)
    else elim (two_tokens (c_string parser.buf)) [
      | none ↦ (status_failed_answer invalid_format, s)
      | some (user, new_pass) ↦
          let (result, users') = change_password s.users (some user) new_pass in
          (by_status result, record s { users = users' })
    ]

unfoldable pub switch_pass_dissectors : CommandParser → Bool → Server → Answer × Server
unfolding no_data_status_success_answer status_failed_answer
switch_pass_dissectors parser value s =
    if parser.has_data == 1
    then (status_failed_answer no_data_command, s)
    else (no_data_status_success_answer, record s { sniffer_on = value })

-- The decimal digits that `%lu` prints; a number of `fuel` digits or fewer is printed whole.
digits : ℕ → ℕ → List ℕ → List ℕ
digits zero n acc = acc
digits (suc fuel) n acc =
    let more = digits fuel (n / 10) ((48 + n % 10) ∷ acc) in
    if ltb n 10 then (48 + n) ∷ acc else more

-- A `long` printed as an `unsigned long`.
unfoldable pub print_lu : ℤ → List ℕ
unfolding digits
print_lu (pos n) = digits 20 (n % 2 ^ 64) []
print_lu (negsuc n) = digits 20 (2 ^ 64 - 1 - n % 2 ^ 64) []

abbrev pub metrics_csv_title : List ℕ
metrics_csv_title =
    codes "curr_socks;hist_socks;curr_control;hist_control;curr_total;hist_total;bytes_trnf"
    ++ 10 ∷ []

unfoldable pub get_metrics : CommandParser → Server → Answer × Server
unfolding status_failed_answer print_lu get_current_total get_historic_total
get_metrics parser s = if parser.has_data == 1 then (status_failed_answer no_data_command, s) else (
  record {
    written =
        status_success
        ∷ 2
        ∷ (metrics_csv_title
            ++ (print_lu s.metrics.current_socks_connections
                ++ b';'
                  ∷ (print_lu s.metrics.historic_socks_connections
                      ++ b';'
                        ∷ (print_lu s.metrics.current_mgmt_connections
                            ++ b';'
                              ∷ (print_lu s.metrics.historic_mgmt_connections
                                  ++ b';'
                                    ∷ (print_lu (get_current_total s.metrics)
                                        ++ b';'
                                          ∷ (print_lu (get_historic_total s.metrics)
                                              ++ b';'
                                                ∷ (print_lu s.metrics.bytes_transferred
                                                    ++ 10 ∷ 0 ∷ []))))))));
    size = 2 * length metrics_csv_title;
  },
  s,
)

-- The names of the users, a line each.
unfoldable pub name_lines : List User → List ℕ
name_lines [] = []
name_lines (x ∷ xs) = x.name ++ 10 ∷ name_lines xs

abbrev pub socks_u_header : List ℕ
socks_u_header =
    b'S' ∷ b'o' ∷ b'c' ∷ b'k' ∷ b's' ∷ 32 ∷ b'u' ∷ b's' ∷ b'e' ∷ b'r' ∷ b's' ∷ b':' ∷ 32 ∷ 10 ∷ []

abbrev pub initial_socks_u_size : ℕ
initial_socks_u_size = 512

-- `strcat` writes a terminator behind the last line, whether it fits or not.
unfoldable pub get_socks_users : CommandParser → Server → Answer × Server
unfolding name_lines
get_socks_users parser s = (
  record {
    written =
        b'1'
        ∷ (total_users s.users + 1) % 256
        ∷ (socks_u_header ++ (name_lines s.users.users ++ 0 ∷ []));
    size = initial_socks_u_size;
  },
  s,
)
