-- ===== src/Client/Changes.antt =====
-- From `editpass` typed in src/client/client.c to the table of users of the server, and back.
use tpe_socks.Prelude.{
  ℕ, ◌+◌, ◌≡◌, ap, ◌∙◌, ◌++◌, some, List, [], ◌∷◌, arith, length, codes, str_eq, if◌then◌else◌,
  ◌&&◌,
}
use tpe_socks.Prelude.Int.{ℤ, pos}
use tpe_socks.Buffer.{Buffer}
use tpe_socks.Buffer.Inv.{IsValid}
use tpe_socks.Buffer.Refine.{contents}
use tpe_socks.Buffer.For.{for_bytes}
use tpe_socks.Users.{Text, Users}
use tpe_socks.Users.Table.{lookup}
use tpe_socks.Users.Inv as UsersInv
use tpe_socks.Control.CommandParser.{
  CommandParser, parse_step, is_done, is_error, init_cp_command_parser, max_data_size,
}
use tpe_socks.Control.Commands.{Server, by_status}
use tpe_socks.Control.Commands.Answers.{change_password_command_lem}
use tpe_socks.Control.Protocol as Protocol
use tpe_socks.Control.Protocol.{Env, sent_bytes}
use tpe_socks.Control.Protocol.Dispatch.{run_command-change_password_command}
use tpe_socks.Client.{maxlen, command_edit_password, Reply, received, Client}
use tpe_socks.Client.Messages.{double_message_lem}
use tpe_socks.Client.Lines.{IsWord, get_args-two}
use tpe_socks.Client.Dialog.{
  new_command, run_command, find_command, Stack, double_by, invalid_command,
}
use tpe_socks.Client.Responses.{
  response_by-by_status, after, told_status, double_by-sent, analyze_return-edit,
}
use tpe_socks.Client.Logins.{IsLogin, user_message, typed_two, parsed_two}

editpass-IsWord : IsWord (codes "editpass")
editpass-IsWord = record {
  some_byte = omega arith;
  no_space = ground arith;
  no_end = ground arith;
  is_text = ground arith;
}

-- The server's answer to a change of an entry, as the client gets it.
abbrev pub answered_status : Env → ℤ → Reply
answered_status env z = received (sent_bytes env (by_status z))

told_editpass :
    (stack : Stack) (c : Client) (u p more : List ℕ) (env : Env) (z : ℤ)
    → c.stdin ≡ codes "editpass" ++ 32 ∷ (u ++ 32 ∷ (p ++ 10 ∷ more))
    → IsLogin u p
    → length stack.response_buf ≡ maxlen
    → new_command stack (record c { replies = answered_status env z ∷ c.replies })
      ≡ some (
        (told_status z).0,
        after
            (record c { stdin = more })
            (user_message command_edit_password u p)
            c.replies
            (told_status z).1,
      )
unfolding find_command run_command
told_editpass stack c u p more env z e l h =
    let c' : Client = record c { stdin = more } in
    let bytes : List ℕ = user_message command_edit_password u p in
    typed_two stack c (codes "editpass") u p more (answered_status env z) c.replies e
      editpass-IsWord (omega arith) l
    ∙ (ap
          (λ a.
            double_by command_edit_password (pos 4) invalid_command a stack.response_buf
              (record c' { replies = answered_status env z ∷ c.replies }))
          (get_args-two u p l.user l.password)
        ∙ (double_by-sent command_edit_password (pos 4) invalid_command u p stack.response_buf c'
              bytes (answered_status env z) c.replies
              (double_message_lem command_edit_password u p (omega arith) l.user.is_text
                (omega (arith, l.fits)))
            ∙ (rw (response_by-by_status stack.response_buf env z h) (
                ap some (
                  analyze_return-edit
                    (record c' { replies = c.replies; sent = c.sent ++ bytes ∷ [] }) z)))))

-- What a change of a password that is typed does: at the server, and to the client with its answer.
abbrev pub EditsTyped :
    (stack : Stack) (c : Client) (u p more : List ℕ) (env : Env) (parser : CommandParser)
    (b : Buffer) (rest : List ℕ) (s : Server)
    → Type 0
EditsTyped stack c u p more env parser b rest s =
    let z = UsersInv.status (lookup u s.users.users) in
    (q : CommandParser) × (b' : Buffer) × (users' : Users) × (for_bytes parse_step is_done is_error
        (length (contents b)) (init_cp_command_parser parser) b
      ≡ some (q, b'))
    × (contents b' ≡ rest)
    × (Protocol.run_command env q s ≡ (some (by_status z), record s { users = users' }))
    × ((j : Text)
        → lookup j users'.users ≡ (
            if str_eq j u && UsersInv.is_some (lookup u s.users.users)
            then some p
            else lookup j s.users.users))
    × UsersInv.IsValid users'
    × (new_command stack (record c { replies = answered_status env z ∷ c.replies })
        ≡ some (
          (told_status z).0,
          after (record c { stdin = more }) (user_message command_edit_password u p) c.replies
              (told_status z).1,
        ))

-- The user types `editpass u p`, two words of at most 253 bytes together, the name without a colon. The
-- client sends one message. A server whose buffer starts with that message parses it, its
-- `switch` on the code runs `changePassword`, and that gives exactly the user of that name, if there is one, that password; what
-- is behind the message stays in the buffer. Once the client gets the bytes that the server sends as
-- its answer, it tells the user whether the name was there.
pub editpass_round_trip :
    (stack : Stack) (c : Client) (u p more : List ℕ) (env : Env) (parser : CommandParser)
    (b : Buffer) (rest : List ℕ) (s : Server)
    → c.stdin ≡ codes "editpass" ++ 32 ∷ (u ++ 32 ∷ (p ++ 10 ∷ more))
    → IsLogin u p
    → length stack.response_buf ≡ maxlen
    → length parser.buf ≡ max_data_size + 1
    → IsValid b
    → contents b ≡ user_message command_edit_password u p ++ rest
    → UsersInv.IsValid s.users
    → EditsTyped stack c u p more env parser b rest s
editpass_round_trip stack c u p more env parser b rest s typed l h size v e valid =
    let z : ℤ = UsersInv.status (lookup u s.users.users) in
    let (q, b', parse, left, code, flag, line) =
      parsed_two parser b command_edit_password u p rest (omega arith) (omega arith) l size v e in
    let (users', answer, entries, kept) = change_password_command_lem q s u p flag line valid in
    (
      q,
      b',
      users',
      parse,
      left,
      run_command-change_password_command env q s (record s { users = users' }) (by_status z) code
          answer,
      entries,
      kept,
      told_editpass stack c u p more env z typed l h,
    )
