-- ===== src/Client/Strings.antt =====
-- The strings and arrays of src/client/commands.c: what `strcat` makes of an array that is zero
-- behind its string.
use tpe_socks.Prelude.{
  ℕ, zero, suc, ◌+◌, ◌<◌, ◌≡◌, refl, sym, ap, ◌∙◌, some, List, [], ◌∷◌, ◌++◌, append_assoc, arith,
  length, length-append, length-replicate, All, c_string, store_all, set, take,
}
use tpe_socks.Client.{Text, zeros, store, strcat, terminated}

abbrev pub IsText : Text → Type 0
IsText s = All (λ x. 0 < x) s

pub length-zeros : (n : ℕ) → length (zeros n) ≡ n
length-zeros n = length-replicate n 0

pub set-append :
    (pre : List ℕ) (x y : ℕ) (post : List ℕ)
    → set (pre ++ x ∷ post) (length pre) y ≡ pre ++ y ∷ post
set-append [] x y post = refl
set-append (p ∷ pre) x y post = ap (λ t. p ∷ t) (set-append pre x y post)

-- Bytes stored over as many bytes of an array.
store_all-append :
    (pre old new post : List ℕ)
    → length old ≡ length new
    → store_all (pre ++ (old ++ post)) (length pre) new ≡ pre ++ (new ++ post)
store_all-append pre [] [] post h = refl
store_all-append pre [] (y ∷ ys) post h = absurd (omega arith)
store_all-append pre (x ∷ xs) [] post h = absurd (omega arith)
store_all-append pre (x ∷ xs) (y ∷ ys) post h =
    let n : suc (length pre) ≡ length (pre ++ y ∷ []) = omega (arith, length-append pre (y ∷ [])) in
    rw
      (
        set-append pre x y (xs ++ post),
        n,
        sym (append_assoc pre (y ∷ []) (xs ++ post)),
        store_all-append (pre ++ y ∷ []) xs ys post (omega arith),
        append_assoc pre (y ∷ []) (ys ++ post),
      )
      refl

zeros-split : (n k : ℕ) → zeros (n + k) ≡ zeros n ++ zeros k
zeros-split zero k = let e : 0 + k ≡ k = omega arith in rw e refl
zeros-split (suc n) k =
    let e : suc n + k ≡ suc (n + k) = omega arith in rw e (ap (λ t. 0 ∷ t) (zeros-split n k))

-- Bytes stored over zeros.
pub store_all-zeros :
    (pre new : List ℕ) (k : ℕ)
    → store_all (pre ++ zeros (length new + k)) (length pre) new ≡ pre ++ (new ++ zeros k)
store_all-zeros pre new k =
    rw (zeros-split (length new) k)
      (store_all-append pre (zeros (length new)) new (zeros k) (length-zeros (length new)))

pub c_string-text : (s post : List ℕ) → IsText s → c_string (s ++ 0 ∷ post) ≡ s
c_string-text [] post h = refl
c_string-text (x ∷ s) post h = ground (arith, c_string-text s post h.1, h.0)

pub c_string-whole : (s : List ℕ) → IsText s → c_string s ≡ s
c_string-whole [] h = refl
c_string-whole (x ∷ s) h = ground (arith, c_string-whole s h.1, h.0)

pub terminated-text : (s post : List ℕ) → IsText s → terminated (s ++ 0 ∷ post) ≡ some s
unfolding terminated
terminated-text [] post h = refl
terminated-text (x ∷ s) post h = ground (arith, terminated-text s post h.1, h.0)

pub take-append : (xs post : List ℕ) → take (length xs) (xs ++ post) ≡ xs
take-append [] post = refl
take-append (x ∷ xs) post = ap (λ t. x ∷ t) (take-append xs post)

pub IsText-append : (s t : Text) → IsText s → IsText t → IsText (s ++ t)
IsText-append [] t p q = q
IsText-append (x ∷ s) t p q = (p.0, IsText-append s t p.1 q)

-- `strcat` behind a string with zeros behind it.
pub strcat-zeros :
    (pre text : List ℕ) (k : ℕ)
    → IsText pre
    → strcat (pre ++ zeros (suc (length text + k))) text ≡ some ((pre ++ text) ++ zeros (suc k))
unfolding strcat
strcat-zeros pre text k p =
    let e : suc (length text + k) ≡ length (text ++ 0 ∷ []) + k =
      omega (arith, length-append text (0 ∷ [])) in
    let cut : c_string (pre ++ zeros (suc (length text + k))) ≡ pre =
      c_string-text pre (zeros (length text + k)) p in
    let stored : store_all (pre ++ zeros (suc (length text + k))) (length pre) (text ++ 0 ∷ [])
        ≡ (pre ++ text) ++ zeros (suc k) =
      ap (λ (n : ℕ). store_all (pre ++ zeros n) (length pre) (text ++ 0 ∷ [])) e
      ∙ (store_all-zeros pre (text ++ 0 ∷ []) k
          ∙ (ap (λ t. pre ++ t) (append_assoc text (0 ∷ []) (zeros k))
              ∙ sym (append_assoc pre text (zeros (suc k))))) in
    let fits : length pre + length text < length (pre ++ zeros (suc (length text + k))) = omega (
      arith,
      length-append pre (zeros (suc (length text + k))),
      length-zeros (suc (length text + k)),
    ) in
    rw (cut, stored) (ground (arith, fits))

-- A byte stored over the first zero.
pub store-zeros :
    (pre : List ℕ) (x k i : ℕ)
    → i ≡ length pre
    → store (pre ++ zeros (suc k)) i x ≡ some (pre ++ x ∷ zeros k)
unfolding store
store-zeros pre x k i e =
    rw (e, set-append pre 0 x (zeros k))
      (ground (arith, length-append pre (zeros (suc k)), length-zeros (suc k)))
