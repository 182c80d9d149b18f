-- ===== src/Users/Table.antt =====
-- The table of src/users/user_mgmt.c as a finite map from names to passwords, and what the search
-- loops and the two ways to change the array do to it.
use tpe_socks.Prelude.{
  ℕ, suc, ◌+◌, ◌-◌, ◌≤◌, ◌<◌, ◌≡◌, refl, ap, ◌∙◌, false, Option, none, some, List, [], ◌∷◌, str_eq,
  str_eq→eq, str_eq_refl, length, length-take, get_elem?, set, take, if◌then◌else◌, arith,
  Bool-cases, inl, inr,
}
use tpe_socks.Prelude.Int.{pos, negsuc}
use tpe_socks.Users.{Text, User, find_name, remove_at}

-- The password of a name.
abbrev pub lookup : Text → List User → Option Text
lookup j [] = none
lookup j (x ∷ xs) = let rest = lookup j xs in if str_eq j x.name then some x.pass else rest

-- No two users of the table have one name.
abbrev pub Unique : List User → Type 0
Unique [] = Unit
Unique (x ∷ xs) = (lookup x.name xs ≡ none) × Unique xs

str_eq-sym : (a b : Text) → str_eq a b ≡ false → str_eq b a ≡ false
str_eq-sym a b h = elim (Bool-cases (str_eq b a)) [
  | inl e ↦ let q : b ≡ a = str_eq→eq b a e in ground (arith, str_eq_refl a)
  | inr e ↦ e
]

-- The search misses exactly when the name is not in the table.
pub find_name-miss :
    (u : Text) (xs : List User) (k p : ℕ) → find_name u xs k ≡ negsuc p → lookup u xs ≡ none
unfolding find_name
find_name-miss u [] k p h = refl
find_name-miss u (x ∷ xs) k p h = ground (arith, find_name-miss u xs (suc k) p)

pub find_name-hit :
    (u : Text) (xs : List User) (k p : ℕ)
    → find_name u xs k ≡ pos p
    → (k ≤ p) × (p < k + length xs) × (lookup u xs ≡ none → ⊥)
unfolding find_name
find_name-hit u [] k p h = cc
find_name-hit u (x ∷ xs) k p h = elim (Bool-cases (str_eq u x.name)) [
  | inl e ↦ ground arith
  | inr e ↦ ground (arith, find_name-hit u xs (suc k) p (rw e at h))
]

-- The last user of a table whose names differ may as well stand first.
lookup-rotate :
    (j : Text) (y l : User) (ys : List User)
    → Unique (y ∷ ys)
    → get_elem? (y ∷ ys) (length ys) ≡ some l
    → lookup j (l ∷ take (length ys) (y ∷ ys)) ≡ lookup j (y ∷ ys)
lookup-rotate j y l [] q e = cc
lookup-rotate j y l (z ∷ zs) q e =
    let at_j = lookup-rotate j z l zs q.1 e in
    let at_y = lookup-rotate y.name z l zs q.1 e ∙ q.0 in
    elim (Bool-cases (str_eq j y.name)) [
      | inl h ↦
          let same : j ≡ y.name = str_eq→eq j y.name h in
          rw same (ground (arith, at_y, str_eq_refl y.name))
      | inr h ↦ ground arith
    ]

-- So removing the first user by moving the last one into its place removes just that name.
Unique-rotate :
    (y l : User) (ys : List User)
    → Unique (y ∷ ys)
    → get_elem? (y ∷ ys) (length ys) ≡ some l
    → Unique (l ∷ take (length ys) (y ∷ ys))
Unique-rotate y l [] q e = (refl, tt)
Unique-rotate y l (z ∷ zs) q e =
    let (fresh, rest) = Unique-rotate z l zs q.1 e in
    let at_y = lookup-rotate y.name z l zs q.1 e ∙ q.0 in
    elim (Bool-cases (str_eq y.name l.name)) [
      | inl h ↦ absurd (ground (arith, at_y))
      | inr h ↦ (ground (arith, fresh, str_eq-sym y.name l.name h), (ground (arith, at_y), rest))
    ]

-- What `remove_at` does to a table, at the index of the name `u`.
pub record Removed (u : Text) (xs : List User) (ys : List User) : Type 0 where
  pub others : (j : Text) → lookup j ys ≡ (if str_eq j u then none else lookup j xs)
  pub unique : Unique ys
  pub shorter : length ys + 1 ≡ length xs

last_exists : (x : User) (xs : List User) → (l : User) × (get_elem? (x ∷ xs) (length xs) ≡ some l)
last_exists x [] = (x, refl)
last_exists x (y ∷ ys) = last_exists y ys

remove_at-eq :
    (x l : User) (xs : List User) (i : ℕ)
    → get_elem? (x ∷ xs) (length xs) ≡ some l
    → remove_at (x ∷ xs) i ≡ take (length xs) (set (x ∷ xs) i l)
unfolding remove_at
remove_at-eq x l xs i h =
    let e : suc (length xs) - 1 ≡ length xs = omega arith in rw (e, h, remove_at) (rw e)

-- At the first user: the last one takes its place.
remove_head :
    (x : User) (xs : List User) → Unique (x ∷ xs) → Removed x.name (x ∷ xs) (remove_at (x ∷ xs) 0)
remove_head x [] q =
    rw (remove_at-eq x x [] 0 refl)
      (record { others = λ j. ground arith; unique = tt; shorter = refl })
remove_head x (y ∷ ys) q =
    let (l, e) = last_exists y ys in
    rw (remove_at-eq x l (y ∷ ys) 0 e) (record {
      others = λ j. elim (Bool-cases (str_eq j x.name)) [
        | inl h ↦
            let same : j ≡ x.name = str_eq→eq j x.name h in
            rw h (lookup-rotate j y l ys q.1 e ∙ (ap (λ n. lookup n (y ∷ ys)) same ∙ q.0))
        | inr h ↦ rw h (lookup-rotate j y l ys q.1 e)
      ];
      unique = Unique-rotate y l ys q.1 e;
      shorter = omega (arith, length-take (length ys) (y ∷ ys));
    })

-- Behind the first user.
remove_tail :
    (u : Text) (x : User) (xs : List User) (i : ℕ)
    → Unique (x ∷ xs)
    → str_eq u x.name ≡ false
    → i < length xs
    → Removed u xs (remove_at xs i)
    → Removed u (x ∷ xs) (remove_at (x ∷ xs) (suc i))
remove_tail u x [] i q ne lt r = absurd (omega arith)
remove_tail u x (y ∷ ys) i q ne lt r =
    let (l, e) = last_exists y ys in
    let r' = rw (remove_at-eq y l ys i e) at r in
    rw (remove_at-eq x l (y ∷ ys) (suc i) e) (record {
      others = λ j. ground (arith, r'.others j, str_eq→eq j u, ne);
      unique = (ground (arith, r'.others x.name, q.0), r'.unique);
      shorter = omega (arith, r'.shorter);
    })

pub remove_at-Removed :
    (u : Text) (xs : List User) (k p i : ℕ)
    → Unique xs
    → find_name u xs k ≡ pos p
    → p ≡ k + i
    → Removed u xs (remove_at xs i)
unfolding find_name
remove_at-Removed u [] k p i q h e = cc
remove_at-Removed u (x ∷ xs) k p i q h e = elim (Bool-cases (str_eq u x.name)) [
  | inl here ↦
      let p_k : pos k ≡ pos p = rw here at h in
      let i_0 : i ≡ 0 = ground arith in
      let same : u ≡ x.name = str_eq→eq u x.name here in rw (i_0, same) (remove_head x xs q)
  | inr there ↦
      let rest : find_name u xs (suc k) ≡ pos p = rw there at h in
      let (lo, hi, _) = find_name-hit u xs (suc k) p rest in
      let i_pos : i ≡ suc (i - 1) = omega arith in
      rw i_pos (
        remove_tail u x xs (i - 1) q there (omega arith)
          (remove_at-Removed u xs (suc k) p (i - 1) q.1 rest (omega arith)))
]
