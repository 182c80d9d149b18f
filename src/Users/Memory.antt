-- ===== src/Users/Memory.antt =====
-- The blocks that src/users/user_mgmt.c allocates for names and passwords.
use tpe_socks.Prelude.{
  ℕ, zero, suc, ◌+◌, ◌≤◌, ◌≡◌, refl, sym, subst, List, [], ◌∷◌, ◌++◌, some, length, All, arith,
  Bool-cases, inl, inr, str_eq,
}
use tpe_socks.Prelude.Int.{ℤ, pos, negsuc}
use tpe_socks.Users.{
  Text, User, Users, Alloc, find_name, add_user, change_password, user_exists_by_username,
  replace_pass,
}

-- Each string fits, with its terminator, in the block that was allocated for it.
abbrev pub Fits : User → Type 0
Fits u = (length u.name + 1 ≤ u.name_size) × (length u.pass + 1 ≤ u.pass_size)

All-append : (xs : List User) (u : User) → All Fits xs → Fits u → All Fits (xs ++ u ∷ [])
All-append [] u h f = (f, tt)
All-append (x ∷ xs) u h f = (h.0, All-append xs u h.1 f)

-- `add_user` allocates enough for both strings, on every branch.
pub add_user-Fits :
    (alloc : Alloc) (s : Users) (name pass : Text)
    → All Fits s.users
    → All Fits (add_user alloc s name pass).1.users
unfolding add_user
add_user-Fits alloc s name pass h = ground (
  arith,
  All-append s.users
      (record {
        name = name;
        pass = pass;
        name_size = length name + 1;
        pass_size = length pass + 1;
      })
      h (omega arith, omega arith),
)

-- The password that `change_password` writes never fits in its block.
pub replace_pass-overflow :
    (u new : Text) (xs : List User) (k p i : ℕ)
    → find_name u xs k ≡ pos p
    → p ≡ k + i
    → ¬ All Fits (replace_pass xs i new)
unfolding find_name replace_pass
replace_pass-overflow u new [] k p i h e = λ _. cc
replace_pass-overflow u new (x ∷ xs) k p zero h e = λ a. omega arith
replace_pass-overflow u new (x ∷ xs) k p (suc i) h e = elim (Bool-cases (str_eq u x.name)) [
  | inl q ↦ let p_k : pos k ≡ pos p = rw q at h in absurd (ground arith)
  | inr q ↦ λ a. replace_pass-overflow u new xs (suc k) p i (rw q at h) (omega arith) a.1
]

-- Every successful `change_password` writes past the end of the block that it allocates: the table
-- holds a password that does not fit, whatever the new password is.
pub change_password_overflows :
    (s : Users) (u new : Text)
    → (change_password s (some u) new).0 ≡ pos 0
    → ¬ All Fits (change_password s (some u) new).1.users
unfolding change_password user_exists_by_username
change_password_overflows s u new h = go (find_name u s.users 0) refl
  where
    go : (r : ℤ) → find_name u s.users 0 ≡ r → ¬ All Fits (change_password s (some u) new).1.users
    go (pos p) e =
        let over = replace_pass-overflow u new s.users 0 p p e (omega arith) in
        let done : change_password s (some u) new
            ≡ (pos 0, record s { users = replace_pass s.users p new }) =
          ground arith in
        subst (λ (t : ℤ × Users). ¬ All Fits t.1.users) (sym done) over
    go (negsuc p) e = absurd (ground arith)
