-- ===== src/Client/Logins.antt =====
-- A command with a user and a password: the line that src/client/client.c reads, the message that it
-- sends, and what the parser of src/controlProtocol/parsers/cpCommandParser.c makes of it.
use tpe_socks.Prelude.{
  ℕ, suc, ◌+◌, ◌≤◌, ◌<◌, ◌≡◌, ◌≢◌, refl, sym, ap, ◌∙◌, ◌++◌, some, List, [], ◌∷◌, append_assoc,
  arith, length, length-append, All, All-append, c_string, c_string-stored, store_all, drop,
}
use tpe_socks.Buffer.{Buffer}
use tpe_socks.Buffer.Inv.{IsValid}
use tpe_socks.Buffer.Refine.{contents}
use tpe_socks.Buffer.For.{for_bytes}
use tpe_socks.Users.{Text}
use tpe_socks.Control.Strtok.{strtok-token}
use tpe_socks.Control.CommandParser.{
  CommandParser, parse_step, is_done, is_error, init_cp_command_parser, max_data_size,
}
use tpe_socks.Control.CommandParser.Message.{for_bytes-command, finished}
use tpe_socks.Control.Commands.Answers.{IsUserLine}
use tpe_socks.Client.{Reply, Client}
use tpe_socks.Client.Strings.{IsText}
use tpe_socks.Client.Lines.{IsWord, new_command-line}
use tpe_socks.Client.Dialog.{command_str, new_command, run_line, run_command, find_command, Stack}

-- A user and a password as they are typed.
pub record IsLogin (u p : Text) : Type 0 where
  pub user : IsWord u
  pub password : IsWord p
  pub no_colon : All (λ x. x ≢ b':') u
  pub fits : length u + length p ≤ 253

abbrev pub user_line : Text → Text → List ℕ
user_line u p = u ++ b':' ∷ p

-- The message with two arguments.
abbrev pub user_message : ℕ → Text → Text → List ℕ
user_message code u p = code ∷ 1 ∷ (u ++ b':' ∷ (p ++ 10 ∷ []))

user_message-line :
    (code : ℕ) (u p rest : List ℕ)
    → user_message code u p ++ rest ≡ code ∷ 1 ∷ (user_line u p ++ 10 ∷ rest)
user_message-line code u p rest =
    ap (λ t. code ∷ 1 ∷ t)
      (append_assoc u (b':' ∷ (p ++ 10 ∷ [])) rest
        ∙ (ap (λ t. u ++ b':' ∷ t) (append_assoc p (10 ∷ []) rest)
            ∙ sym (append_assoc u (b':' ∷ p) (10 ∷ rest))))

-- The data that the server's parser has stored of such a line, whatever the array held before.
user_line-stored :
    (buf : List ℕ) (u p : Text)
    → length buf ≡ max_data_size + 1
    → IsLogin u p
    → IsUserLine (c_string (store_all buf 0 (user_line u p ++ 10 ∷ []))) u p
user_line-stored buf u p h l =
    let line : List ℕ = user_line u p ++ 10 ∷ [] in
    let behind : List ℕ = c_string (drop (length line) buf) in
    let text : IsText line =
      All-append (λ x. 0 < x) (user_line u p) (10 ∷ [])
        (All-append (λ x. 0 < x) u (b':' ∷ p) l.user.is_text (omega arith, l.password.is_text))
        (omega arith, tt) in
    let size : length line ≤ length buf =
      omega (arith, length-append (user_line u p) (10 ∷ []), length-append u (b':' ∷ p), l.fits) in
    (
      behind,
      c_string-stored buf line size text
          ∙ (append_assoc (user_line u p) (10 ∷ []) behind
              ∙ append_assoc u (b':' ∷ p) (10 ∷ behind)),
      l.user.some_byte,
      l.no_colon,
      l.password.some_byte,
      l.password.no_end,
    )

-- What the client makes of a line with two words behind the command's name.
pub typed_two :
    (stack : Stack) (c : Client) (name u p more : List ℕ) (reply : Reply) (rest : List Reply)
    → c.stdin ≡ name ++ 32 ∷ (u ++ 32 ∷ (p ++ 10 ∷ more))
    → IsWord name
    → length name ≤ 20
    → IsLogin u p
    → new_command stack (record c { replies = reply ∷ rest })
      ≡ run_command
          (find_command command_str 0 name)
          (u ++ 32 ∷ p)
          stack
          (record c { stdin = more; replies = reply ∷ rest })
unfolding run_line
typed_two stack c name u p more reply rest e w short l =
    let args : List ℕ = u ++ 32 ∷ p in
    let whole : c.stdin ≡ (name ++ 32 ∷ args) ++ 10 ∷ more =
      e
      ∙ sym (
          append_assoc name (32 ∷ args) (10 ∷ more)
          ∙ ap (λ t. name ++ 32 ∷ t) (append_assoc u (32 ∷ p) (10 ∷ more))) in
    let text : IsText (name ++ 32 ∷ args) =
      All-append (λ x. 0 < x) name (32 ∷ args) w.is_text
        (
          omega arith,
          All-append (λ x. 0 < x) u (32 ∷ p) l.user.is_text (omega arith, l.password.is_text),
        ) in
    let no_end : All (λ x. x ≢ 10) (name ++ 32 ∷ args) =
      All-append (λ x. x ≢ 10) name (32 ∷ args) w.no_end
        (
          omega arith,
          All-append (λ x. x ≢ 10) u (32 ∷ p) l.user.no_end (omega arith, l.password.no_end),
        ) in
    let size : length (name ++ 32 ∷ args) ≤ 1022 =
      omega (arith, length-append name (32 ∷ args), length-append u (32 ∷ p), l.fits) in
    new_command-line stack (record c { replies = reply ∷ rest }) (name ++ 32 ∷ args) more whole text
      no_end size
    ∙ rw (strtok-token 32 name args w.some_byte w.no_space) refl

-- The server's side: what its parser makes of the message.
pub parsed_two :
    (parser : CommandParser) (b : Buffer) (code : ℕ) (u p rest : List ℕ)
    → b'1' ≤ code
    → code ≤ b'7'
    → IsLogin u p
    → length parser.buf ≡ max_data_size + 1
    → IsValid b
    → contents b ≡ user_message code u p ++ rest
    → (q : CommandParser) × (b' : Buffer) × (for_bytes parse_step is_done is_error
          (length (contents b))
          (init_cp_command_parser parser)
          b
        ≡ some (q, b'))
      × (contents b' ≡ rest)
      × (q.code ≡ code)
      × (q.has_data ≡ 1)
      × IsUserLine (c_string q.buf) u p
parsed_two parser b code u p rest lo hi l h v e =
    let no_end : All (λ x. x ≢ 10) (user_line u p) =
      All-append (λ x. x ≢ 10) u (b':' ∷ p) l.user.no_end (omega arith, l.password.no_end) in
    let (b', r, v', k) =
      for_bytes-command parser code (user_line u p) rest b h lo hi
        (omega (arith, length-append u (b':' ∷ p), l.fits)) no_end v
        (e ∙ user_message-line code u p rest) in
    (
      finished code 1 (store_all parser.buf 0 (user_line u p ++ 10 ∷ []))
          (suc (length (user_line u p))),
      b',
      r,
      k,
      refl,
      refl,
      user_line-stored parser.buf u p h l,
    )
