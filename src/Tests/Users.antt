-- ===== src/Tests/Users.antt =====
-- The table of src/users/user_mgmt.c with two users.
use tpe_socks.Prelude.{◌+◌, ◌≡◌, ◌↔◌, ◌⊎◌, refl, true, some, [], ◌∷◌, length, codes, arith, All}
use tpe_socks.Prelude.Int.{pos, negsuc}
use tpe_socks.Users.{
  Text, User, Users, Alloc, unset, total_users, add_user, remove_user, change_password,
  process_authentication_request,
}
use tpe_socks.Users.Inv.{IsValid, Adds, add_user_lem, process_authentication_request_lem}
use tpe_socks.Users.Memory.{Fits, change_password_overflows}

abbrev pub new_user : Text → Text → User
new_user name pass = record {
  name = name;
  pass = pass;
  name_size = length name + 1;
  pass_size = length pass + 1;
}

abbrev pub alice : Text
alice = codes "alice"

abbrev pub bob : Text
bob = codes "bob"

abbrev pub carol : Text
carol = codes "carol"

abbrev pub sesame : Text
sesame = codes "sesame"

abbrev pub two_users : Users
two_users = record {
  users = new_user alice sesame ∷ new_user bob (codes "b2") ∷ [];
  require_auth = true;
  curr_user = unset;
}

abbrev pub plenty : Alloc
plenty = record { slot = true; name = true; pass = true }

pub two_users-IsValid : IsValid two_users
two_users-IsValid = record { bounded = omega arith; unique = (refl, (refl, tt)); guarded = refl }

add_carol : Adds plenty two_users carol sesame (add_user plenty two_users carol sesame)
add_carol = add_user_lem plenty two_users carol sesame two_users-IsValid

login_alice :
    ((process_authentication_request two_users alice sesame ≡ pos 0)
      ↔ ((total_users two_users ≡ 0) ⊎ (some sesame ≡ some sesame)))
    × ((process_authentication_request two_users alice sesame ≡ pos 0)
        ⊎ (process_authentication_request two_users alice sesame ≡ negsuc 0))
login_alice = process_authentication_request_lem two_users alice sesame two_users-IsValid

bob_changed : (change_password two_users (some bob) sesame).0 ≡ pos 0
unfolding change_password tpe_socks.Users.user_exists_by_username tpe_socks.Users.find_name
bob_changed = refl

change_bob_overflow : ¬ All Fits (change_password two_users (some bob) sesame).1.users
change_bob_overflow = change_password_overflows two_users bob sesame bob_changed
