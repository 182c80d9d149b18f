-- ===== src/Users.antt =====
-- src/users/user_mgmt.c and src/users/user_mgmt.h: the table of proxy users.
--
-- The globals of the file are one record. `users` holds the first `total_users` slots of the array:
-- the later ones are never read. A user holds, beside its strings, the sizes of the blocks that
-- were allocated for them, which `strcpy` does not look at.
pub mod Table
pub mod Entries
pub mod Inv
pub mod Memory
use tpe_socks.Prelude.{
  ℕ, suc, ◌+◌, ◌-◌, ◌≡◌, Bool, true, false, not, ◌&&◌, Option, none, some, List, [], ◌∷◌, ◌++◌,
  str_eq, length, get_elem?, set, take, if◌then◌else◌, ◌==◌,
}
use tpe_socks.Prelude.Int.{ℤ, pos, negsuc}

-- A C string: its bytes before the terminator.
abbrev pub Text : Type 0
Text = List ℕ

-- `user_t`, with the sizes of the blocks behind its pointers.
pub record User : Type 0 where
  pub name : Text
  pub pass : Text
  pub name_size : ℕ
  pub pass_size : ℕ

-- `curr_user`: a null pointer, a live string, or a pointer to a freed block.
pub data CurrUser : Type 0 where
  unset : CurrUser
  live : Text → CurrUser
  freed : CurrUser

pub record Users : Type 0 where
  pub users : List User
  pub require_auth : Bool
  pub curr_user : CurrUser

-- `enum add_user_state`.
pub data AddUserState : Type 0 where
  add_ok add_max_users add_user_exists add_error : AddUserState

-- Whether each of the three calls of `malloc` in `add_user` succeeds.
pub record Alloc : Type 0 where
  pub slot : Bool
  pub name : Bool
  pub pass : Bool

abbrev pub max_users : ℕ
max_users = 10

unfoldable pub initial : Users
initial = record { users = []; require_auth = false; curr_user = unset }

abbrev pub total_users : Users → ℕ
total_users s = length s.users

unfoldable pub valid_credentials : Text → Text → Text → Text → Bool
valid_credentials username password user2 pass2 = str_eq username user2 && str_eq password pass2

unfoldable pub needs_auth : Users → Bool
needs_auth s = s.require_auth

unfoldable pub set_curr_user : Users → Text → Users
set_curr_user s username = record s { curr_user = live username }

-- Freeing a block twice is a fault.
unfoldable pub free_curr_user : Users → Option Users
free_curr_user s = elim s.curr_user [
  | unset ↦ some s
  | live _ ↦ some (record s { curr_user = freed })
  | freed ↦ none
]

-- The loops over the table return the index of the first hit, from `i` on, or -1.
unfoldable pub find_credentials : Text → Text → List User → ℕ → ℤ
unfolding valid_credentials
find_credentials username password [] i = negsuc 0
find_credentials username password (x ∷ xs) i =
    let rest = find_credentials username password xs (suc i) in
    if valid_credentials username password x.name x.pass then pos i else rest

unfoldable pub find_name : Text → List User → ℕ → ℤ
find_name username [] i = negsuc 0
find_name username (x ∷ xs) i =
    let rest = find_name username xs (suc i) in if str_eq username x.name then pos i else rest

unfoldable pub process_authentication_request : Users → Text → Text → ℤ
process_authentication_request s username password =
    if not s.require_auth
    then pos 0
    else elim (find_credentials username password s.users 0) [ pos _ ↦ pos 0 | negsuc _ ↦ negsuc 0 ]

-- A null pointer is `none`.
unfoldable pub user_exists : Users → Option Text → Option Text → ℤ
user_exists s none password = negsuc 0
user_exists s (some username) none = negsuc 0
user_exists s (some username) (some password) = find_credentials username password s.users 0

unfoldable pub user_exists_by_username : Users → Option Text → ℤ
user_exists_by_username s none = negsuc 0
user_exists_by_username s (some username) = find_name username s.users 0

-- `users[pos] = users[total_users - 1]; total_users--;`
unfoldable pub remove_at : List User → ℕ → List User
remove_at us p = elim (get_elem? us (length us - 1)) [
  | none ↦ us
  | some last ↦ take (length us - 1) (set us p last)
]

unfoldable pub remove_user : Users → Option Text → ℤ × Users
remove_user s username = elim (user_exists_by_username s username) [
  | negsuc _ ↦ (negsuc 0, s)
  | pos p ↦ (
    pos 0,
    record s {
      users = remove_at s.users p;
      require_auth = if length (remove_at s.users p) == 0 then false else s.require_auth;
    },
  )
]

-- A failed `malloc` leaves a slot behind the table, which nothing reads.
unfoldable pub add_user : Alloc → Users → Text → Text → AddUserState × Users
add_user alloc s name pass =
    if total_users s == max_users
    then (add_max_users, s)
    else elim (user_exists_by_username s (some name)) [
      | pos _ ↦ (add_user_exists, s)
      | negsuc _ ↦
          if not alloc.slot
          then (add_error, s)
          else if not (alloc.name && alloc.pass)
          then (add_error, s)
          else (
            add_ok,
            record s {
              users =
                  s.users
                  ++ record {
                    name = name;
                    pass = pass;
                    name_size = length name + 1;
                    pass_size = length pass + 1;
                  }
                    ∷ [];
              require_auth = true;
            },
          )
    ]

-- `malloc(strlen(new_password + 1))`, which asks for the length from the second byte on. (Of an empty
-- string the source would measure what lies behind the terminator; no caller passes one.)
unfoldable pub replace_pass : List User → ℕ → Text → List User
replace_pass [] p new_password = []
replace_pass (x ∷ xs) p new_password = elim p [
  | ℕ.zero ↦ record x { pass = new_password; pass_size = length new_password - 1 } ∷ xs
  | suc q ↦ x ∷ replace_pass xs q new_password
]

unfoldable pub change_password : Users → Option Text → Text → ℤ × Users
change_password s username new_password = elim (user_exists_by_username s username) [
  | negsuc _ ↦ (negsuc 0, s)
  | pos p ↦ (pos 0, record s { users = replace_pass s.users p new_password })
]
