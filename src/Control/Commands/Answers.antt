-- ===== src/Control/Commands/Answers.antt =====
-- What the commands of src/controlProtocol/cpCommands.c do to the table of users, and what they answer.
use tpe_socks.Prelude.{
  ℕ, ◌+◌, ◌-◌, ◌*◌, ◌≤◌, ◌<◌, ◌≡◌, ◌≢◌, ap, ◌∙◌, ◌&&◌, none, some, List, [], ◌∷◌, arith, length,
  length-append, ◌++◌, All, c_string, str_eq, set, if◌then◌else◌, store_all, c_string-replaced_end,
}
use tpe_socks.Users.{Text, User, Users, Alloc, AddUserState, add_user, remove_user, change_password}
use tpe_socks.Users.Table.{lookup}
use tpe_socks.Users.Inv.{
  IsValid, Adds, add_user_lem, remove_user_lem, change_password_lem, status, is_some,
}
use tpe_socks.Control.Strtok.{strtok-token}
use tpe_socks.Control.CommandParser.{CommandParser, new_line}
use tpe_socks.Control.Commands.{
  Server, two_tokens, add_result, by_status, add_proxy_user, remove_proxy_user,
  change_password_command, get_socks_users, name_lines,
}

pub length-name_lines :
    (us : List User) → All (λ u. length u.name ≤ 48) us → length (name_lines us) ≤ 49 * length us
unfolding name_lines
length-name_lines [] h = omega arith
length-name_lines (u ∷ us) h =
    omega (arith, length-append u.name (new_line ∷ name_lines us), length-name_lines us h.1, h.0)

-- A line with a user name and a password, as the protocol has it, and what the array holds behind it.
abbrev pub IsUserLine : List ℕ → Text → Text → Type 0
IsUserLine line user password =
    (behind : List ℕ) × (line ≡ user ++ b':' ∷ (password ++ new_line ∷ behind))
    × (0 < length user)
    × All (λ c. c ≢ b':') user
    × (0 < length password)
    × All (λ c. c ≢ new_line) password

two_tokens_lem :
    (line user password : List ℕ)
    → IsUserLine line user password
    → two_tokens line ≡ some (user, password)
unfolding two_tokens
two_tokens_lem line user password (behind, e, n, u, n', w) = rw e (
    ground (
      arith,
      strtok-token b':' user (password ++ new_line ∷ behind) n u,
      strtok-token new_line password behind n' w,
    ))

-- With data that is a line `user:password`, the command adds that user as `add_user` does, answers by
-- the status of the addition, and changes nothing else of the server.
pub add_proxy_user_lem :
    (alloc : Alloc) (parser : CommandParser) (s : Server) (user password : Text)
    → parser.has_data ≡ 1
    → IsUserLine (c_string parser.buf) user password
    → IsValid s.users
    → (r : AddUserState) × (users' : Users) × (add_proxy_user alloc parser s
        ≡ (add_result r, record s { users = users' }))
      × Adds alloc s.users user password (r, users')
unfolding add_proxy_user
add_proxy_user_lem alloc parser s user password h l v =
    let (r, users') = add_user alloc s.users user password in
    (
      r,
      users',
      rw (h, two_tokens_lem (c_string parser.buf) user password l),
      add_user_lem alloc s.users user password v,
    )

-- With data that is a line `user:password`, the command gives that user the password if it is there,
-- answers by whether it is, and changes no other entry.
pub change_password_command_lem :
    (parser : CommandParser) (s : Server) (user password : Text)
    → parser.has_data ≡ 1
    → IsUserLine (c_string parser.buf) user password
    → IsValid s.users
    → (users' : Users) × (change_password_command parser s
        ≡ (by_status (status (lookup user s.users.users)), record s { users = users' }))
      × ((j : Text)
          → lookup j users'.users ≡ (
              if str_eq j user && is_some (lookup user s.users.users)
              then some password
              else lookup j s.users.users))
      × IsValid users'
unfolding change_password_command
change_password_command_lem parser s user password h l v =
    let (r, entries, count, valid) = change_password_lem s.users user password v in
    (
      (change_password s.users (some user) password).1,
      rw (h, two_tokens_lem (c_string parser.buf) user password l, r),
      entries,
      valid,
    )

-- On the data that the parser has stored of a line with a name, the command takes exactly that name
-- out of the table, and answers by whether it was there.
pub remove_proxy_user_lem :
    (parser : CommandParser) (s : Server) (buf line : List ℕ)
    → parser.has_data ≡ 1
    → parser.buf ≡ store_all buf 0 (line ++ new_line ∷ [])
    → parser.data_size ≡ length line + 1
    → length line + 1 < length buf
    → IsValid s.users
    → (users' : Users) × (remove_proxy_user parser s
        ≡ (by_status (status (lookup (c_string line) s.users.users)), record s { users = users' }))
      × ((j : Text)
          → lookup j users'.users
            ≡ (if str_eq j (c_string line) then none else lookup j s.users.users))
      × IsValid users'
unfolding remove_proxy_user
remove_proxy_user_lem parser s buf line h b d fits v =
    let (r, entries, valid) = remove_user_lem s.users (c_string line) v in
    let at_end : parser.data_size - 1 ≡ length line = omega arith in
    let name : c_string (set parser.buf (parser.data_size - 1) 0) ≡ c_string line =
      ap (λ (i : ℕ). c_string (set parser.buf i 0)) at_end
      ∙ (ap (λ (xs : List ℕ). c_string (set xs (length line) 0)) b
          ∙ c_string-replaced_end buf line new_line (omega arith)) in
    ((remove_user s.users (some (c_string line))).1, rw (h, name, r), entries, valid)

-- The block of the list of users is large enough for any valid table whose names have at most 48 bytes.
pub get_socks_users_fits :
    (parser : CommandParser) (s : Server)
    → IsValid s.users
    → All (λ u. length u.name ≤ 48) s.users.users
    → let a = (get_socks_users parser s).0 in length a.written ≤ a.size
unfolding get_socks_users
get_socks_users_fits parser s v h = omega (
  arith,
  v.bounded,
  length-append (name_lines s.users.users) (0 ∷ []),
  length-name_lines s.users.users h,
)
