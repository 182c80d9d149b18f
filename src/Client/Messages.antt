-- ===== src/Client/Messages.antt =====
-- The messages that src/client/commands.c builds in its arrays, and how long their arguments may be.
use tpe_socks.Prelude.{
  ℕ, suc, ◌+◌, ◌-◌, ◌≤◌, ◌<◌, ◌≡◌, refl, sym, ap, ◌∙◌, some, none, List, [], ◌∷◌, ◌++◌,
  append_assoc, arith, length, length-append, take, ◌>>=◌, c_string,
}
use tpe_socks.Client.{
  Text, has_data, token, zeros, store, strcat, with_data, single_message, double_message,
}
use tpe_socks.Client.Strings.{
  IsText, IsText-append, length-zeros, strcat-zeros, store-zeros, take-append, c_string-text,
}

with_data_lem : (command : ℕ) → with_data command ≡ some ((command ∷ 1 ∷ []) ++ zeros 1022)
unfolding with_data store
with_data_lem command = refl

-- The array of the message behind two arguments, with zeros behind.
strcat-with_data :
    (command : ℕ) (text : Text) (k : ℕ)
    → 0 < command
    → length text + k ≡ 1021
    → strcat ((command ∷ 1 ∷ []) ++ zeros 1022) text ≡ some ((command ∷ 1 ∷ text) ++ zeros (suc k))
strcat-with_data command text k p e =
    let e' : 1022 ≡ suc (length text + k) = omega arith in
    ap (λ (n : ℕ). strcat ((command ∷ 1 ∷ []) ++ zeros n) text) e'
    ∙ strcat-zeros (command ∷ 1 ∷ []) text k (p, (omega arith, tt))

-- The end of the line is stored behind the text, and the message taken up to it.
ended :
    (text : List ℕ) (k len : ℕ)
    → len ≡ suc (length text)
    → (store (text ++ zeros (suc k)) (len - 1) token >>= λ buf. some (take len buf))
      ≡ some (text ++ token ∷ [])
ended text k len e =
    let at : len - 1 ≡ length text = omega arith in
    let n : len ≡ length (text ++ token ∷ []) = omega (arith, length-append text (token ∷ [])) in
    rw (store-zeros text token k (len - 1) at) (
      ap some (
        ap (λ t. take len t) (sym (append_assoc text (token ∷ []) (zeros k)))
        ∙ (ap (λ (m : ℕ). take m ((text ++ token ∷ []) ++ zeros k)) n
            ∙ take-append (text ++ token ∷ []) (zeros k))))

-- With an argument that leaves room for the rest, the message is the code, the flag, the argument and
-- the end of the line.
pub single_message_lem :
    (command : ℕ) (username : Text)
    → 0 < command
    → length username ≤ 1021
    → single_message command username ≡ some (command ∷ has_data ∷ (username ++ token ∷ []))
unfolding single_message
single_message_lem command username p fits =
    let k : ℕ = 1021 - length username in
    rw (with_data_lem command, strcat-with_data command username k p (omega arith))
      (ended (command ∷ 1 ∷ username) k (length username + 3) (omega arith))

-- The same with two arguments, and a colon between them.
pub double_message_lem :
    (command : ℕ) (username pass : Text)
    → 0 < command
    → IsText username
    → length username + length pass ≤ 1020
    → double_message command username pass
      ≡ some (command ∷ has_data ∷ (username ++ b':' ∷ (pass ++ token ∷ [])))
unfolding double_message
double_message_lem command username pass p u fits =
    let k : ℕ = 1020 - (length username + length pass) in
    let k₁ : ℕ = length pass + suc k in
    let start : IsText (command ∷ 1 ∷ username) = (p, (omega arith, u)) in
    let colon : IsText ((command ∷ 1 ∷ username) ++ b':' ∷ []) =
      IsText-append (command ∷ 1 ∷ username) (b':' ∷ []) start (omega arith, tt) in
    let one : 1 + (length pass + k) ≡ k₁ = omega arith in
    let second : strcat ((command ∷ 1 ∷ username) ++ zeros (suc k₁)) (b':' ∷ [])
        ≡ some (((command ∷ 1 ∷ username) ++ b':' ∷ []) ++ zeros (suc (length pass + k))) =
      ap (λ (n : ℕ). strcat ((command ∷ 1 ∷ username) ++ zeros (suc n)) (b':' ∷ [])) (sym one)
      ∙ strcat-zeros (command ∷ 1 ∷ username) (b':' ∷ []) (length pass + k) start in
    rw
      (
        with_data_lem command,
        strcat-with_data command username k₁ p (omega arith),
        second,
        strcat-zeros ((command ∷ 1 ∷ username) ++ b':' ∷ []) pass k colon,
      )
      (ended (((command ∷ 1 ∷ username) ++ b':' ∷ []) ++ pass) k (length username + length pass + 4)
          (omega (
            arith,
            length-append ((command ∷ 1 ∷ username) ++ b':' ∷ []) pass,
            length-append (command ∷ 1 ∷ username) (b':' ∷ []),
          ))
        ∙ ap some (
            append_assoc ((command ∷ 1 ∷ username) ++ b':' ∷ []) pass (token ∷ [])
            ∙ append_assoc (command ∷ 1 ∷ username) (b':' ∷ []) (pass ++ token ∷ [])))

-- An argument of 1022 bytes or more does not fit into the array with its end.
pub single_message-overflow :
    (command : ℕ) (username : Text)
    → 0 < command
    → 1022 ≤ length username
    → single_message command username ≡ none
unfolding single_message strcat
single_message-overflow command username p long =
    let cut : c_string ((command ∷ 1 ∷ []) ++ zeros 1022) ≡ command ∷ 1 ∷ [] =
      c_string-text (command ∷ 1 ∷ []) (zeros 1021) (p, (omega arith, tt)) in
    let size : length ((command ∷ 1 ∷ []) ++ zeros 1022) ≡ 1024 =
      omega (arith, length-append (command ∷ 1 ∷ []) (zeros 1022), length-zeros 1022) in
    rw (with_data_lem command, cut, size) (ground arith)
