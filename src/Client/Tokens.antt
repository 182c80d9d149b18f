-- ===== src/Client/Tokens.antt =====
-- `strtok` of src/client/commands.c in an array of rows, each with its end.
use tpe_socks.Prelude.{
  ℕ, zero, suc, ◌+◌, ◌<◌, ◌≡◌, ◌≢◌, refl, sym, ap, ◌∙◌, some, List, [], ◌∷◌, ◌++◌, append_assoc,
  arith, length, length-append, All, drop, slice, get_or, set,
}
use tpe_socks.Client.{Text, token}
use tpe_socks.Client.Strings.{IsText, set-append}
use tpe_socks.Client.Listing.{delimiters, token_length, end_token, token_from, strtok_in}

-- A name as a row of the list has it.
pub record IsRow (name : Text) : Type 0 where
  pub some_byte : 0 < length name
  pub is_text : IsText name
  pub no_end : All (λ c. c ≢ token) name

-- The rows as the server writes them.
abbrev pub row_bytes : List Text → List ℕ
row_bytes [] = []
row_bytes (x ∷ xs) = x ++ token ∷ row_bytes xs

abbrev pub row_lines : List Text → List Text
row_lines [] = []
row_lines (x ∷ xs) = (x ++ 10 ∷ []) ∷ row_lines xs

drop-append : (pre post : List ℕ) → drop (length pre) (pre ++ post) ≡ post
drop-append [] post = refl
drop-append (x ∷ pre) post = drop-append pre post

pub get_or-append :
    (pre : List ℕ) (x : ℕ) (post : List ℕ) → get_or (pre ++ x ∷ post) (length pre) 0 ≡ x
get_or-append [] x post = refl
get_or-append (p ∷ pre) x post = get_or-append pre x post

slice-cons : (p : ℕ) (xs : List ℕ) (i n : ℕ) → slice (p ∷ xs) (suc i) n ≡ slice xs i n
slice-cons p xs i zero = refl
slice-cons p xs i (suc n) = ap (λ t. get_or xs i 0 ∷ t) (slice-cons p xs (suc i) n)

slice-front : (xs post : List ℕ) → slice (xs ++ post) 0 (length xs) ≡ xs
slice-front [] post = refl
slice-front (x ∷ xs) post =
    ap (λ t. x ∷ t) (slice-cons x (xs ++ post) 0 (length xs) ∙ slice-front xs post)

slice-mid : (pre xs post : List ℕ) → slice (pre ++ (xs ++ post)) (length pre) (length xs) ≡ xs
slice-mid [] xs post = slice-front xs post
slice-mid (p ∷ pre) xs post =
    slice-cons p (pre ++ (xs ++ post)) (length pre) (length xs) ∙ slice-mid pre xs post

token_length_lem :
    (name post : List ℕ)
    → IsText name
    → All (λ c. c ≢ token) name
    → token_length token (name ++ token ∷ post) ≡ some (length name)
unfolding token_length
token_length_lem [] post t n = refl
token_length_lem (x ∷ name) post t n = ground (arith, token_length_lem name post t.1 n.1, t.0, n.0)

no_delimiters : (x : ℕ) (post : List ℕ) → x ≢ token → delimiters token (x ∷ post) ≡ some 0
unfolding delimiters
no_delimiters x post n = ground (arith, n)

-- `strtok` at the start of a row: the name, and the array with a zero for the end of the line.
pub strtok_in_lem :
    (pre name post : List ℕ)
    → IsRow name
    → strtok_in token (pre ++ (name ++ token ∷ post)) (length pre)
      ≡ some (some name, pre ++ (name ++ 0 ∷ post), length pre + length name + 1)
unfolding strtok_in token_from end_token
strtok_in_lem pre [] post r = absurd (omega (arith, r.some_byte))
strtok_in_lem pre (x ∷ name) post r =
    let whole : List ℕ = x ∷ name in
    let z : length pre + 0 ≡ length pre = omega arith in
    let at : length pre + suc (length name) ≡ length (pre ++ whole) =
      omega (arith, length-append pre whole) in
    let shape : pre ++ (whole ++ token ∷ post) ≡ (pre ++ whole) ++ token ∷ post =
      sym (append_assoc pre whole (token ∷ post)) in
    let ending : get_or (pre ++ (whole ++ token ∷ post)) (length pre + suc (length name)) 0
        ≡ token =
      ap (λ (i : ℕ). get_or (pre ++ (whole ++ token ∷ post)) i 0) at
      ∙ (ap (λ (b : List ℕ). get_or b (length (pre ++ whole)) 0) shape
          ∙ get_or-append (pre ++ whole) token post) in
    let cut : set (pre ++ (whole ++ token ∷ post)) (length pre + suc (length name)) 0
        ≡ pre ++ (whole ++ 0 ∷ post) =
      ap (λ (i : ℕ). set (pre ++ (whole ++ token ∷ post)) i 0) at
      ∙ (ap (λ (b : List ℕ). set b (length (pre ++ whole)) 0) shape
          ∙ (set-append (pre ++ whole) token 0 post ∙ append_assoc pre whole (0 ∷ post))) in
    let next : suc (length pre + suc (length name)) ≡ length pre + suc (length name) + 1 =
      omega arith in
    rw
      (
        drop-append pre (whole ++ token ∷ post),
        no_delimiters x (name ++ token ∷ post) r.no_end.0,
        z,
        drop-append pre (whole ++ token ∷ post),
        token_length_lem whole post r.is_text r.no_end,
        ending,
        cut,
        slice-mid pre whole (token ∷ post),
        next,
      )
      refl
