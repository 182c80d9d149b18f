-- ===== src/Prelude/Bytes.antt =====
-- Byte arrays: reading a run of bytes, storing a run of bytes, and C strings in an array.
use Prim.Native.Nat.{ℕ, zero, suc, ◌+◌, ◌-◌, ◌≤◌, ◌<◌}
use mathlib.Core.Path.{◌≡◌, refl, ap, ap₂, ◌∙◌}
use mathlib.Core.Bool.{Bool, true, false, ◌&&◌}
use mathlib.Core.List.{List, [], ◌∷◌, ◌++◌}
use Prim.Native.Char.{code}
use Prim.Native.String.{String}
use native.Mathlib.Omega.{arith}
use tpe_socks.Prelude.Tests.{◌==◌, if◌then◌else◌}
use tpe_socks.Prelude.Lists.{length, get_or, set, drop, get_or-set_self, get_or-set_ne, length-set}

-- The bytes of an ASCII text.
abbrev pub codes : String → List ℕ
codes String.[] = []
codes (String.◌∷◌ c s) = code c ∷ codes s

-- The `n` bytes of an array from index `i` on.
abbrev pub slice : List ℕ → ℕ → ℕ → List ℕ
slice xs i zero = []
slice xs i (suc n) = get_or xs i 0 ∷ slice xs (suc i) n

-- The bytes `ys` stored one after another from index `i` on.
abbrev pub store_all : List ℕ → ℕ → List ℕ → List ℕ
store_all xs i [] = xs
store_all xs i (y ∷ ys) = store_all (set xs i y) (suc i) ys

-- The C string at the start of an array: the bytes before the first zero.
abbrev pub c_string : List ℕ → List ℕ
c_string [] = []
c_string (x ∷ xs) = let rest = c_string xs in if x == 0 then [] else x ∷ rest

abbrev pub All {ℓ κ} : {A : Type ℓ} → (A → Type κ) → List A → Type κ
All P [] = Unit
All P (x ∷ xs) = P x × All P xs

pub All-append {ℓ κ} :
    {A : Type ℓ} (P : A → Type κ) (xs ys : List A) → All P xs → All P ys → All P (xs ++ ys)
All-append P [] ys p q = q
All-append P (x ∷ xs) ys p q = (p.0, All-append P xs ys p.1 q)

-- `strcmp(a, b) == 0`, on the bytes before the terminators.
abbrev pub str_eq : List ℕ → List ℕ → Bool
str_eq [] [] = true
str_eq [] (y ∷ ys) = false
str_eq (x ∷ xs) [] = false
str_eq (x ∷ xs) (y ∷ ys) = (x == y) && str_eq xs ys

pub str_eq→eq : (xs ys : List ℕ) → str_eq xs ys ≡ true → xs ≡ ys
str_eq→eq [] [] h = refl
str_eq→eq [] (y ∷ ys) h = cc
str_eq→eq (x ∷ xs) [] h = cc
str_eq→eq (x ∷ xs) (y ∷ ys) h = ground (arith, str_eq→eq xs ys)

pub str_eq_refl : (xs : List ℕ) → str_eq xs xs ≡ true
str_eq_refl [] = refl
str_eq_refl (x ∷ xs) = ground (arith, str_eq_refl xs)

pub length-slice : (xs : List ℕ) (i n : ℕ) → length (slice xs i n) ≡ n
length-slice xs i zero = refl
length-slice xs i (suc n) = ap suc (length-slice xs (suc i) n)

pub length-store_all : (xs : List ℕ) (i : ℕ) (ys : List ℕ) → length (store_all xs i ys) ≡ length xs
length-store_all xs i [] = refl
length-store_all xs i (y ∷ ys) = length-store_all (set xs i y) (suc i) ys ∙ length-set xs i y

pub slice-append :
    (xs : List ℕ) (i n m : ℕ) → slice xs i (n + m) ≡ slice xs i n ++ slice xs (i + n) m
slice-append xs i zero m =
    let e : i + 0 ≡ i = omega arith in let e' : 0 + m ≡ m = omega arith in rw (e, e')
slice-append xs i (suc n) m =
    let e : suc n + m ≡ suc (n + m) = omega arith in
    let e' : i + suc n ≡ suc i + n = omega arith in
    rw (e, e') (ap (λ t. get_or xs i 0 ∷ t) (slice-append xs (suc i) n m))

pub slice-set_before : (xs : List ℕ) (i n j v : ℕ) → j < i → slice (set xs j v) i n ≡ slice xs i n
slice-set_before xs i zero j v h = refl
slice-set_before xs i (suc n) j v h =
    ap₂ ◌∷◌ (get_or-set_ne xs j i v 0 (omega arith))
      (slice-set_before xs (suc i) n j v (omega arith))

pub slice-set_after :
    (xs : List ℕ) (i n j v : ℕ) → i + n ≤ j → slice (set xs j v) i n ≡ slice xs i n
slice-set_after xs i zero j v h = refl
slice-set_after xs i (suc n) j v h =
    ap₂ ◌∷◌ (get_or-set_ne xs j i v 0 (omega arith))
      (slice-set_after xs (suc i) n j v (omega arith))

pub slice-store_all_after :
    (xs : List ℕ) (i n j : ℕ) (ys : List ℕ)
    → i + n ≤ j
    → slice (store_all xs j ys) i n ≡ slice xs i n
slice-store_all_after xs i n j [] h = refl
slice-store_all_after xs i n j (y ∷ ys) h =
    slice-store_all_after (set xs j y) i n (suc j) ys (omega arith) ∙ slice-set_after xs i n j y h

pub get_or-store_all_before :
    (xs : List ℕ) (i j : ℕ) (ys : List ℕ) → i < j → get_or (store_all xs j ys) i 0 ≡ get_or xs i 0
get_or-store_all_before xs i j [] h = refl
get_or-store_all_before xs i j (y ∷ ys) h =
    get_or-store_all_before (set xs j y) i (suc j) ys (omega arith)
    ∙ get_or-set_ne xs j i y 0 (omega arith)

-- What was stored is read back.
pub slice-store_all :
    (xs : List ℕ) (i : ℕ) (ys : List ℕ)
    → i + length ys ≤ length xs
    → slice (store_all xs i ys) i (length ys) ≡ ys
slice-store_all xs i [] h = refl
slice-store_all xs i (y ∷ ys) h =
    ap₂ ◌∷◌
      (get_or-store_all_before (set xs i y) i (suc i) ys (omega arith)
        ∙ get_or-set_self xs i y 0 (omega arith))
      (slice-store_all (set xs i y) (suc i) ys (omega (arith, length-set xs i y)))

pub drop-slice : (xs : List ℕ) (i n k : ℕ) → drop k (slice xs i n) ≡ slice xs (i + k) (n - k)
drop-slice xs i n zero =
    let e : i + 0 ≡ i = omega arith in let e' : n - 0 ≡ n = omega arith in rw (e, e')
drop-slice xs i zero (suc k) = let e : 0 - suc k ≡ 0 = omega arith in rw e
drop-slice xs i (suc n) (suc k) =
    let e : i + suc k ≡ suc i + k = omega arith in
    let e' : suc n - suc k ≡ n - k = omega arith in rw (e, e') (drop-slice xs (suc i) n k)

store_all-cons :
    (x : ℕ) (xs : List ℕ) (i : ℕ) (ys : List ℕ)
    → store_all (x ∷ xs) (suc i) ys ≡ x ∷ store_all xs i ys
store_all-cons x xs i [] = refl
store_all-cons x xs i (y ∷ ys) = store_all-cons x (set xs i y) (suc i) ys

-- A string stored at the start of an array that has a zero just behind it.
pub c_string-store_all :
    (xs ys : List ℕ)
    → length ys < length xs
    → All (λ y. 0 < y) ys
    → c_string (store_all (set xs (length ys) 0) 0 ys) ≡ ys
c_string-store_all [] ys h p = absurd (omega arith)
c_string-store_all (x ∷ xs) [] h p = refl
c_string-store_all (x ∷ xs) (y ∷ ys) h p =
    rw (store_all-cons y (set xs (length ys) 0) 0 ys)
      (ground (arith, c_string-store_all xs ys (omega arith) p.1))

-- A string stored at the start of an array, whatever is behind it.
pub c_string-stored :
    (buf xs : List ℕ)
    → length xs ≤ length buf
    → All (λ x. 0 < x) xs
    → c_string (store_all buf 0 xs) ≡ xs ++ c_string (drop (length xs) buf)
c_string-stored buf [] h p = refl
c_string-stored [] (x ∷ xs) h p = absurd (omega arith)
c_string-stored (b ∷ buf) (x ∷ xs) h p =
    rw (store_all-cons x buf 0 xs) (ground (arith, c_string-stored buf xs (omega arith) p.1, p.0))

-- Filling a whole array.
pub store_all-full : (xs ys : List ℕ) → length xs ≡ length ys → store_all xs 0 ys ≡ ys
store_all-full [] [] h = refl
store_all-full [] (y ∷ ys) h = absurd (omega arith)
store_all-full (x ∷ xs) [] h = absurd (omega arith)
store_all-full (x ∷ xs) (y ∷ ys) h =
    store_all-cons y xs 0 ys ∙ ap (λ t. y ∷ t) (store_all-full xs ys (omega arith))

-- A run of bytes stored at the start of an array, and a terminator behind it.
pub c_string-terminated :
    (xs ys : List ℕ)
    → length ys < length xs
    → c_string (set (store_all xs 0 ys) (length ys) 0) ≡ c_string ys
c_string-terminated [] ys h = absurd (omega arith)
c_string-terminated (x ∷ xs) [] h = refl
c_string-terminated (x ∷ xs) (y ∷ ys) h =
    rw (store_all-cons y xs 0 ys) (ground (arith, c_string-terminated xs ys))

-- The same where the last byte that was stored becomes the terminator.
pub c_string-replaced_end :
    (xs ys : List ℕ) (e : ℕ)
    → length ys < length xs
    → c_string (set (store_all xs 0 (ys ++ e ∷ [])) (length ys) 0) ≡ c_string ys
c_string-replaced_end [] ys e h = absurd (omega arith)
c_string-replaced_end (x ∷ xs) [] e h = refl
c_string-replaced_end (x ∷ xs) (y ∷ ys) e h =
    rw (store_all-cons y xs 0 (ys ++ e ∷ [])) (ground (arith, c_string-replaced_end xs ys e))
