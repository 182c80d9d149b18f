-- ===== src/Users/Entries.antt =====
-- What appending a user, changing a password and looking for credentials do to the map of
-- src/users/user_mgmt.c.
use tpe_socks.Prelude.{
  ℕ, zero, suc, ◌+◌, ◌≡◌, refl, ap, none, some, List, [], ◌∷◌, ◌++◌, str_eq, str_eq→eq, str_eq_refl,
  length, if◌then◌else◌, arith, Bool-cases, inl, inr,
}
use tpe_socks.Prelude.Int.{pos, negsuc}
use tpe_socks.Users.{Text, User, find_name, find_credentials, replace_pass}
use tpe_socks.Users.Table.{lookup, Unique, find_name-hit}

pub lookup-append :
    (j : Text) (xs : List User) (u : User)
    → lookup u.name xs ≡ none
    → lookup j (xs ++ u ∷ []) ≡ (if str_eq j u.name then some u.pass else lookup j xs)
lookup-append j [] u h = refl
lookup-append j (x ∷ xs) u h =
    ground
      (arith, lookup-append j xs u, str_eq→eq j u.name, str_eq→eq j x.name, str_eq_refl u.name, h)

pub Unique-append :
    (xs : List User) (u : User) → Unique xs → lookup u.name xs ≡ none → Unique (xs ++ u ∷ [])
Unique-append [] u q h = (refl, tt)
Unique-append (x ∷ xs) u q h = elim (Bool-cases (str_eq u.name x.name)) [
  | inl e ↦ absurd (ground (arith, h))
  | inr e ↦
      let h' : lookup u.name xs ≡ none = ground (arith, h) in
      (
        ground
            (arith, lookup-append x.name xs u h', q.0, str_eq→eq x.name u.name, str_eq_refl u.name),
        Unique-append xs u q.1 h',
      )
]

-- Changing a password at the index of the name `u`.
pub replace_pass-lookup :
    (j u new : Text) (xs : List User) (k p i : ℕ)
    → find_name u xs k ≡ pos p
    → p ≡ k + i
    → lookup j (replace_pass xs i new) ≡ (if str_eq j u then some new else lookup j xs)
unfolding find_name replace_pass
replace_pass-lookup j u new [] k p i h e = cc
replace_pass-lookup j u new (x ∷ xs) k p zero h e = elim (Bool-cases (str_eq u x.name)) [
  | inl q ↦ let same : u ≡ x.name = str_eq→eq u x.name q in rw same (ground arith)
  | inr q ↦ absurd (omega (arith, find_name-hit u xs (suc k) p (rw q at h)))
]
replace_pass-lookup j u new (x ∷ xs) k p (suc i) h e = elim (Bool-cases (str_eq u x.name)) [
  | inl q ↦ let p_k : pos k ≡ pos p = rw q at h in absurd (ground arith)
  | inr q ↦
      let ih = replace_pass-lookup j u new xs (suc k) p i (rw q at h) (omega arith) in
      ground (arith, ih, str_eq→eq j u, str_eq→eq j x.name, q)
]

pub replace_pass-Unique :
    (u new : Text) (xs : List User) (k p i : ℕ)
    → find_name u xs k ≡ pos p
    → p ≡ k + i
    → Unique xs
    → Unique (replace_pass xs i new)
unfolding find_name replace_pass
replace_pass-Unique u new [] k p i h e q = cc
replace_pass-Unique u new (x ∷ xs) k p zero h e q = q
replace_pass-Unique u new (x ∷ xs) k p (suc i) h e q = elim (Bool-cases (str_eq u x.name)) [
  | inl d ↦ let p_k : pos k ≡ pos p = rw d at h in absurd (ground arith)
  | inr d ↦
      let rest = rw d at h in
      (
        ground (
          arith,
          replace_pass-lookup x.name u new xs (suc k) p i rest (omega arith),
          q.0,
          str_eq→eq x.name u,
          str_eq_refl u,
        ),
        replace_pass-Unique u new xs (suc k) p i rest (omega arith) q.1,
      )
]

pub length-replace_pass :
    (xs : List User) (i : ℕ) (new : Text) → length (replace_pass xs i new) ≡ length xs
unfolding replace_pass
length-replace_pass [] i new = refl
length-replace_pass (x ∷ xs) zero new = refl
length-replace_pass (x ∷ xs) (suc i) new = ap suc (length-replace_pass xs i new)

-- The credentials are found exactly if the map holds them.
pub find_credentials-hit :
    (u w : Text) (xs : List User) (k p : ℕ)
    → Unique xs
    → find_credentials u w xs k ≡ pos p
    → lookup u xs ≡ some w
unfolding find_credentials
find_credentials-hit u w [] k p q h = cc
find_credentials-hit u w (x ∷ xs) k p q h =
    ground (
      arith,
      find_credentials-hit u w xs (suc k) p q.1,
      str_eq→eq u x.name,
      str_eq→eq w x.pass,
      q.0,
    )

pub find_credentials-miss :
    (u w : Text) (xs : List User) (k p : ℕ)
    → find_credentials u w xs k ≡ negsuc p
    → lookup u xs ≡ some w
    → ⊥
unfolding find_credentials
find_credentials-miss u w [] k p h e = cc
find_credentials-miss u w (x ∷ xs) k p h e =
    ground (arith, find_credentials-miss u w xs (suc k) p, str_eq→eq u x.name, str_eq_refl w)
