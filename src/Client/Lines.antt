-- ===== src/Client/Lines.antt =====
-- How src/client/client.c reads a line of the terminal and splits it into words.
use tpe_socks.Prelude.{
  ℕ, zero, suc, ◌+◌, ◌-◌, ◌≤◌, ◌<◌, ◌≡◌, ◌≢◌, refl, ap, ◌∙◌, some, List, [], ◌∷◌, ◌++◌,
  append_assoc, arith, length, length-append, take, store_all, All,
}
use tpe_socks.Control.Strtok.{strtok, strtok-token, strtok-last}
use tpe_socks.Client.{Text, maxlen, Client, zeros}
use tpe_socks.Client.Strings.{IsText, IsText-append, store_all-zeros, terminated-text, take-append}
use tpe_socks.Client.Dialog.{
  line_of, stored_line, fgets, drop_last, run_line, new_command, Stack, Args, get_args,
}

line_of_lem :
    (n : ℕ) (line more : List ℕ)
    → length line < n
    → All (λ c. c ≢ 10) line
    → line_of n (line ++ 10 ∷ more) ≡ (line ++ 10 ∷ [], more)
unfolding line_of
line_of_lem zero line more h a = absurd (omega arith)
line_of_lem (suc n) [] more h a = refl
line_of_lem (suc n) (x ∷ line) more h a =
    ground (arith, line_of_lem n line more (omega arith) a.1, a.0)

stored_line_lem :
    (line : List ℕ)
    → length line ≤ 1022
    → stored_line (zeros maxlen) (line ++ 10 ∷ [])
      ≡ (line ++ 10 ∷ []) ++ 0 ∷ zeros (1022 - length line)
unfolding stored_line
stored_line_lem [] h = refl
stored_line_lem (y ∷ ys) h =
    let e : 1024 ≡ length (y ∷ ((ys ++ 10 ∷ []) ++ 0 ∷ [])) + (1022 - length (y ∷ ys)) =
      omega (arith, length-append (ys ++ 10 ∷ []) (0 ∷ []), length-append ys (10 ∷ [])) in
    ap (λ (n : ℕ). store_all (zeros n) 0 (y ∷ ((ys ++ 10 ∷ []) ++ 0 ∷ []))) e
    ∙ (store_all-zeros [] (y ∷ ((ys ++ 10 ∷ []) ++ 0 ∷ [])) (1022 - length (y ∷ ys))
        ∙ ap (λ t. y ∷ t) (append_assoc (ys ++ 10 ∷ []) (0 ∷ []) (zeros (1022 - length (y ∷ ys)))))

-- The array with a line and its end.
fgets_lem :
    (line more : List ℕ)
    → length line ≤ 1022
    → All (λ c. c ≢ 10) line
    → fgets (zeros maxlen) (line ++ 10 ∷ more)
      ≡ ((line ++ 10 ∷ []) ++ 0 ∷ zeros (1022 - length line), more)
unfolding fgets
fgets_lem line more h a =
    rw (line_of_lem 1023 line more (omega arith) a) (ap (λ t. (t, more)) (stored_line_lem line h))

drop_last_lem :
    (line post : List ℕ) → IsText line → drop_last ((line ++ 10 ∷ []) ++ 0 ∷ post) ≡ some line
unfolding drop_last
drop_last_lem line post t =
    let n : length (line ++ 10 ∷ []) ≡ suc (length line) =
      omega (arith, length-append line (10 ∷ [])) in
    let e : suc (length line) - 1 ≡ length line = omega arith in
    let cut : take (suc (length line) - 1) (line ++ 10 ∷ []) ≡ line =
      ap (λ (m : ℕ). take m (line ++ 10 ∷ [])) e ∙ take-append line (10 ∷ []) in
    rw
      (terminated-text (line ++ 10 ∷ []) post (IsText-append line (10 ∷ []) t (omega arith, tt)), n)
      (ground (arith, cut))

-- A line of at most 1022 bytes is run whole, without its end.
pub new_command-line :
    (stack : Stack) (c : Client) (line more : List ℕ)
    → c.stdin ≡ line ++ 10 ∷ more
    → IsText line
    → All (λ x. x ≢ 10) line
    → length line ≤ 1022
    → new_command stack c ≡ run_line line stack (record c { stdin = more })
unfolding new_command
new_command-line stack c line more e t a h =
    rw
      (
        ap (λ i. fgets (zeros maxlen) i) e,
        fgets_lem line more h a,
        drop_last_lem line (zeros (1022 - length line)) t,
      )
      refl

-- A word of a command: not empty, and without a space, an end of a line or a zero.
pub record IsWord (word : Text) : Type 0 where
  pub some_byte : 0 < length word
  pub no_space : All (λ x. x ≢ 32) word
  pub no_end : All (λ x. x ≢ 10) word
  pub is_text : IsText word

pub get_args-two :
    (u p : Text) → IsWord u → IsWord p → get_args 2 (u ++ 32 ∷ p) ≡ Args.given (u ∷ p ∷ [])
unfolding get_args strtok
get_args-two u p wu wp =
    rw
      (
        get_args,
        strtok-token 32 u p wu.some_byte wu.no_space,
        strtok-last 32 p wp.some_byte wp.no_space,
      )
      refl

pub get_args-one : (u : Text) → IsWord u → get_args 1 u ≡ Args.given (u ∷ [])
unfolding get_args strtok
get_args-one u wu = rw (get_args, strtok-last 32 u wu.some_byte wu.no_space) refl
