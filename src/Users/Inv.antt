-- ===== src/Users/Inv.antt =====
-- The invariant of the table of src/users/user_mgmt.c, and its operations on a finite map of at most ten
-- entries.
use tpe_socks.Prelude.{
  ℕ, ◌+◌, ◌≤◌, ◌≡◌, ◌≢◌, ◌↔◌, refl, Bool, true, false, Option, none, some, [], ◌∷◌, str_eq,
  str_eq→eq, length, length-append, if◌then◌else◌, arith, Bool-cases, inl, inr, ◌⊎◌, ◌&&◌, ltb,
  ◌==◌,
}
use tpe_socks.Prelude.Int.{ℤ, pos, negsuc}
use tpe_socks.Users.{
  Text, User, Users, Alloc, AddUserState, add_ok, add_max_users, add_user_exists, add_error,
  initial, max_users, total_users, find_name, find_credentials, add_user, remove_user,
  change_password, process_authentication_request, user_exists_by_username,
}
use tpe_socks.Users.Table.{lookup, Unique, find_name-hit, find_name-miss, remove_at-Removed}
use tpe_socks.Users.Entries.{
  lookup-append, Unique-append, replace_pass-lookup, replace_pass-Unique, length-replace_pass,
  find_credentials-hit, find_credentials-miss,
}

-- At most ten users, of different names; authentication is required while there is one.
pub record IsValid (s : Users) : Type 0 where
  pub bounded : total_users s ≤ max_users
  pub unique : Unique s.users
  pub guarded : s.require_auth ≡ ltb 0 (total_users s)

pub initial-IsValid : IsValid initial
unfolding initial
initial-IsValid = record { bounded = omega arith; unique = tt; guarded = refl }

-- The result of a search by name.
search_cases :
    (s : Users) (u : Text)
    → ((p : ℕ) × (find_name u s.users 0 ≡ negsuc p) × (lookup u s.users ≡ none))
      ⊎ ((p : ℕ) × (find_name u s.users 0 ≡ pos p) × (lookup u s.users ≢ none))
search_cases s u = go (find_name u s.users 0) refl
  where
    go :
        (r : ℤ)
        → find_name u s.users 0 ≡ r
        → ((p : ℕ) × (find_name u s.users 0 ≡ negsuc p) × (lookup u s.users ≡ none))
          ⊎ ((p : ℕ) × (find_name u s.users 0 ≡ pos p) × (lookup u s.users ≢ none))
    go (pos p) e = inr (p, e, (find_name-hit u s.users 0 p e).2)
    go (negsuc p) e = inl (p, e, find_name-miss u s.users 0 p e)

-- The status of an addition, by the first of the conditions that fails: there is room, the name is
-- free, there is memory.
abbrev pub add_status : Bool → Option Text → Bool → AddUserState
add_status true _ _ = add_max_users
add_status false (some _) _ = add_user_exists
add_status false none false = add_error
add_status false none true = add_ok

abbrev pub is_ok : AddUserState → Bool
is_ok add_ok = true
is_ok _ = false

-- What `add_user` promises of its result.
pub record Adds (alloc : Alloc) (s : Users) (name pass : Text) (r : AddUserState × Users)
    : Type 0 where
  pub status_given :
      r.0
      ≡ add_status
          (total_users s == max_users)
          (lookup name s.users)
          (alloc.slot && alloc.name && alloc.pass)
  pub entries :
      (j : Text)
      → lookup j r.1.users ≡ (if is_ok r.0 && str_eq j name then some pass else lookup j s.users)
  pub counted : total_users r.1 ≡ total_users s + (if is_ok r.0 then 1 else 0)
  pub valid : IsValid r.1

is_taken :
    (o : Option Text) (room memory : Bool)
    → o ≢ none
    → add_status room o memory ≡ add_status room (some []) memory
is_taken none room memory n = absurd (n refl)
is_taken (some w) true memory n = refl
is_taken (some w) false memory n = refl

-- On a valid table `add_user` reports a full table, else a name that is there, else missing memory,
-- and changes no entry then. Otherwise it reports `ADD_OK` and the map has the new entry, all others
-- as before, and one user more. The table stays valid.
pub add_user_lem :
    (alloc : Alloc) (s : Users) (name pass : Text)
    → IsValid s
    → Adds alloc s name pass (add_user alloc s name pass)
unfolding add_user user_exists_by_username
add_user_lem alloc s name pass v = elim (Bool-cases (total_users s == max_users)) [
  | inl full ↦ ground arith
  | inr room ↦ elim (search_cases s name) [
    | inr (p, e, n) ↦ record {
      status_given =
          ground (
            arith,
            is_taken (lookup name s.users) false (alloc.slot && alloc.name && alloc.pass) n,
          );
      entries = λ j. ground arith;
      counted = ground arith;
      valid = ground arith;
    }
    | inl (p, e, n) ↦ record {
      status_given = ground (arith, n);
      entries = λ j. ground (arith, lookup-append j s.users fresh n);
      counted = ground (arith, length-append s.users (fresh ∷ []));
      valid = record {
        bounded = ground (arith, length-append s.users (fresh ∷ []));
        unique = ground (arith, Unique-append s.users fresh v.unique n);
        guarded = ground (arith, length-append s.users (fresh ∷ []));
      };
    }
  ]
]
  where
    fresh : User
    fresh = record {
      name = name;
      pass = pass;
      name_size = length name + 1;
      pass_size = length pass + 1;
    }

abbrev pub is_some : Option Text → Bool
is_some none = false
is_some (some _) = true

-- 0 for a name that is in the map, -1 for one that is not.
abbrev pub status : Option Text → ℤ
status none = negsuc 0
status (some _) = pos 0

status-some : (o : Option Text) → o ≢ none → status o ≡ pos 0
status-some none h = absurd (h refl)
status-some (some w) h = refl

-- `remove_user` returns -1 for a name that is not there and then changes nothing. It takes any
-- other name out of the map and returns 0. Every other name keeps its password, and the table
-- stays valid, so authentication is off once the last user is gone.
pub remove_user_lem :
    (s : Users) (u : Text)
    → IsValid s
    → let (r, s') = remove_user s (some u) in
      (r ≡ status (lookup u s.users))
      × ((j : Text) → lookup j s'.users ≡ (if str_eq j u then none else lookup j s.users))
      × IsValid s'
unfolding remove_user user_exists_by_username
remove_user_lem s u v = elim (search_cases s u) [
  | inl (p, e, n) ↦ (ground (arith, n), λ j. ground (arith, n, str_eq→eq j u), ground arith)
  | inr (p, e, n) ↦
      let r = remove_at-Removed u s.users 0 p p v.unique e (omega arith) in
      (
        ground (arith, status-some (lookup u s.users) n),
        λ j. ground (arith, r.others j),
        record {
          bounded = ground (arith, r.shorter);
          unique = ground (arith, r.unique);
          guarded = ground (arith, r.shorter);
        },
      )
]

-- `change_password` returns -1 for a name that is not there and changes nothing; it gives any other
-- name the new password, and leaves every other name and the number of users as they were.
pub change_password_lem :
    (s : Users) (u new : Text)
    → IsValid s
    → let (r, s') = change_password s (some u) new in
      (r ≡ status (lookup u s.users))
      × ((j : Text)
          → lookup j s'.users
            ≡ (if str_eq j u && is_some (lookup u s.users) then some new else lookup j s.users))
      × (total_users s' ≡ total_users s)
      × IsValid s'
unfolding change_password user_exists_by_username
change_password_lem s u new v = elim (search_cases s u) [
  | inl (p, e, n) ↦ (ground (arith, n), λ j. ground (arith, n), ground arith, ground arith)
  | inr (p, e, n) ↦ (
    ground (arith, status-some (lookup u s.users) n),
    λ j. ground (
      arith,
      replace_pass-lookup j u new s.users 0 p p e (omega arith),
      status-some (lookup u s.users) n,
    ),
    ground (arith, length-replace_pass s.users p new),
    record {
      bounded = ground (arith, length-replace_pass s.users p new);
      unique = ground (arith, replace_pass-Unique u new s.users 0 p p e (omega arith) v.unique);
      guarded = ground (arith, length-replace_pass s.users p new);
    },
  )
]

-- A login is accepted (0) exactly if no user is registered or the map holds this password under this
-- name, and it is refused by -1 otherwise.
pub process_authentication_request_lem :
    (s : Users) (u w : Text)
    → IsValid s
    → ((process_authentication_request s u w ≡ pos 0)
        ↔ ((total_users s ≡ 0) ⊎ (lookup u s.users ≡ some w)))
      × ((process_authentication_request s u w ≡ pos 0)
          ⊎ (process_authentication_request s u w ≡ negsuc 0))
unfolding process_authentication_request
process_authentication_request_lem s u w v = go (find_credentials u w s.users 0) refl
  where
    go :
        (r : ℤ)
        → find_credentials u w s.users 0 ≡ r
        → ((process_authentication_request s u w ≡ pos 0)
            ↔ ((total_users s ≡ 0) ⊎ (lookup u s.users ≡ some w)))
          × ((process_authentication_request s u w ≡ pos 0)
              ⊎ (process_authentication_request s u w ≡ negsuc 0))
    go (pos p) e =
        let hit = find_credentials-hit u w s.users 0 p v.unique e in
        (((λ _. inr hit), (λ _. ground arith)), inl (ground arith))
    go (negsuc p) e =
        let miss = find_credentials-miss u w s.users 0 p e in
        (((λ h. inl (ground arith)), (λ h. ground (arith, miss))), ground arith)
