-- ===== src/Client/Listed.antt =====
-- The list of the users from the table of the server (src/controlProtocol/cpCommands.c) to the terminal
-- of src/client/commands.c.
use tpe_socks.Prelude.{
  ℕ, suc, ◌+◌, ◌-◌, ◌%◌, ◌≤◌, ◌<◌, ◌≡◌, refl, sym, ap, ◌∙◌, some, List, [], ◌∷◌, ◌++◌, append_assoc,
  arith, length, length-append, All, All-append, store_all, take-all, c_string,
}
use tpe_socks.Users.{User, total_users}
use tpe_socks.Users.Inv.{IsValid}
use tpe_socks.Control.CommandParser.{CommandParser}
use tpe_socks.Control.Commands.{Server, get_socks_users, name_lines}
use tpe_socks.Control.Commands.Answers.{length-name_lines}
use tpe_socks.Control.Protocol.{Env, sent_bytes}
use tpe_socks.Client.{
  Text, maxlen, token, zeros, fill, received, Client, send, send_simple, command_list_users,
}
use tpe_socks.Client.Strings.{IsText, c_string-text, store_all-zeros}
use tpe_socks.Client.Listing.{parse_users_message, list_users}
use tpe_socks.Client.Tokens.{IsRow, row_bytes, row_lines}
use tpe_socks.Client.Printed.{title, parse_first_lem}

abbrev pub names : List User → List Text
names [] = []
names (u ∷ us) = u.name ∷ names us

-- A table whose names the client can print.
abbrev pub IsPrintable : List User → Type 0
IsPrintable us = All (λ u. IsRow u.name) us × All (λ u. length u.name ≤ 48) us

row_bytes-names : (us : List User) → row_bytes (names us) ≡ name_lines us
unfolding name_lines
row_bytes-names [] = refl
row_bytes-names (u ∷ us) = ap (λ t. u.name ++ token ∷ t) (row_bytes-names us)

names-IsRow : (us : List User) → All (λ u. IsRow u.name) us → All IsRow (names us)
names-IsRow [] h = tt
names-IsRow (u ∷ us) (h, hs) = (h, names-IsRow us hs)

length-names : (us : List User) → length (names us) ≡ length us
length-names [] = refl
length-names (u ∷ us) = ap suc (length-names us)

row_bytes-IsText : (us : List Text) → All IsRow us → IsText (row_bytes us)
row_bytes-IsText [] h = tt
row_bytes-IsText (x ∷ xs) (h, hs) =
    All-append (λ c. 0 < c) x (token ∷ row_bytes xs) h.is_text (omega arith, row_bytes-IsText xs hs)

-- The answer, as far as the server sends it.
abbrev list_bytes : List Text → List ℕ
list_bytes us = b'1' ∷ suc (length us) ∷ (title ++ token ∷ row_bytes us)

sent_list :
    (env : Env) (parser : CommandParser) (s : Server)
    → IsValid s.users
    → All (λ u. IsRow u.name) s.users.users
    → sent_bytes env (get_socks_users parser s).0 ≡ list_bytes (names s.users.users)
unfolding get_socks_users
sent_list env parser s v h =
    let us : List User = s.users.users in
    let count : (length us + 1) % 256 ≡ suc (length (names us)) =
      omega (arith, v.bounded, length-names us) in
    let text : IsText (list_bytes (names us)) = (
      omega arith,
      (
        omega arith,
        All-append (λ c. 0 < c) title (token ∷ row_bytes (names us)) (ground arith)
            (omega arith, row_bytes-IsText (names us) (names-IsRow us h)),
      ),
    ) in
    rw (count, sym (row_bytes-names us))
      (ap (λ t. c_string (b'1' ∷ suc (length (names us)) ∷ (title ++ token ∷ t)))
          (append_assoc (row_bytes (names us)) (0 ∷ []) env.behind)
        ∙ c_string-text (list_bytes (names us)) env.behind text)

filled :
    (bytes : List ℕ)
    → length bytes ≤ maxlen
    → fill (zeros maxlen) bytes ≡ bytes ++ zeros (maxlen - length bytes)
filled bytes h =
    let e : maxlen ≡ length bytes + (maxlen - length bytes) = omega arith in
    ap (λ t. store_all (zeros maxlen) 0 t) (take-all bytes maxlen h)
    ∙ (ap (λ (n : ℕ). store_all (zeros n) 0 bytes) e
        ∙ store_all-zeros [] bytes (maxlen - length bytes))

-- With a table that is not empty, of names of 1 to 48 bytes without a zero or an end of a line, the
-- client that asks for the list and gets what the server sends prints the title and then every name of
-- the table, in order, a line each, and nothing else.
pub list_users_lem :
    (c : Client) (env : Env) (parser : CommandParser) (s : Server)
    → IsValid s.users
    → IsPrintable s.users.users
    → 0 < total_users s.users
    → list_users command_list_users
        (record c { replies = received (sent_bytes env (get_socks_users parser s).0) ∷ c.replies })
      ≡ some (
        b'i',
        record c {
          sent = c.sent ++ (b'4' ∷ 0 ∷ []) ∷ [];
          printed = c.printed ++ (title ++ 10 ∷ []) ∷ row_lines (names s.users.users);
        },
      )
unfolding list_users send_simple send parse_users_message
list_users_lem c env parser s v (rows, short) some_user =
    let us : List Text = names s.users.users in
    let size : length (row_bytes us) ≤ 490 = omega (
      arith,
      ap (λ (l : List ℕ). length l) (row_bytes-names s.users.users),
      length-name_lines s.users.users short,
      v.bounded,
    ) in
    let fits : length (list_bytes us) ≤ maxlen =
      omega (arith, size, length-append title (token ∷ row_bytes us)) in
    let array : fill (zeros maxlen) (list_bytes us)
        ≡ b'1'
          ∷ suc (length us)
          ∷ (title ++ token ∷ (row_bytes us ++ zeros (maxlen - length (list_bytes us)))) =
      filled (list_bytes us) fits in
    rw
      (
        sent_list env parser s v rows,
        array,
        parse_first_lem (suc (length us)) us (zeros (maxlen - length (list_bytes us))) c.replies
            c.printed (names-IsRow s.users.users rows) (omega (arith, size)) refl
            (omega (arith, length-names s.users.users)),
      )
      refl
