-- ===== src/Client/RoundTrip.antt =====
-- From a line that the user types in src/client/client.c to the table of users of the server
-- (src/controlProtocol/cpCommands.c), and back to what the user is told.
use tpe_socks.Prelude.{ℕ, ◌+◌, ◌≡◌, ap, ◌∙◌, ◌++◌, some, List, [], ◌∷◌, arith, length, codes}
use tpe_socks.Prelude.Int.{pos}
use tpe_socks.Buffer.{Buffer}
use tpe_socks.Buffer.Inv.{IsValid}
use tpe_socks.Buffer.Refine.{contents}
use tpe_socks.Buffer.For.{for_bytes}
use tpe_socks.Users.{Users, AddUserState}
use tpe_socks.Users.Inv as UsersInv
use tpe_socks.Control.CommandParser.{
  CommandParser, parse_step, is_done, is_error, init_cp_command_parser, max_data_size,
}
use tpe_socks.Control.Commands.{Server, add_result}
use tpe_socks.Control.Commands.Answers.{add_proxy_user_lem}
use tpe_socks.Control.Protocol as Protocol
use tpe_socks.Control.Protocol.{Env, sent_bytes}
use tpe_socks.Control.Protocol.Dispatch.{run_command-add_proxy_user}
use tpe_socks.Client.{maxlen, command_add_user, Reply, received, Client}
use tpe_socks.Client.Messages.{double_message_lem}
use tpe_socks.Client.Lines.{IsWord, get_args-two}
use tpe_socks.Client.Dialog.{
  new_command, run_command, find_command, Stack, double_by, too_many_args,
}
use tpe_socks.Client.Responses.{
  response_by-add_result, after, told, double_by-sent, analyze_return-add,
}
use tpe_socks.Client.Logins.{IsLogin, user_message, typed_two, parsed_two}

adduser-IsWord : IsWord (codes "adduser")
adduser-IsWord = record {
  some_byte = omega arith;
  no_space = ground arith;
  no_end = ground arith;
  is_text = ground arith;
}

-- The server's answer to an addition, as the client gets it.
abbrev pub answered : Env → AddUserState → Reply
answered env r = received (sent_bytes env (add_result r))

told_adduser :
    (stack : Stack) (c : Client) (u p more : List ℕ) (env : Env) (r : AddUserState)
    → c.stdin ≡ codes "adduser" ++ 32 ∷ (u ++ 32 ∷ (p ++ 10 ∷ more))
    → IsLogin u p
    → length stack.response_buf ≡ maxlen
    → new_command stack (record c { replies = answered env r ∷ c.replies })
      ≡ some (
        (told r).0,
        after (record c { stdin = more }) (user_message command_add_user u p) c.replies (told r).1,
      )
unfolding find_command run_command
told_adduser stack c u p more env r e l h =
    let c' : Client = record c { stdin = more } in
    typed_two stack c (codes "adduser") u p more (answered env r) c.replies e adduser-IsWord
      (omega arith) l
    ∙ (ap
          (λ a.
            double_by command_add_user (pos 2) too_many_args a stack.response_buf
              (record c' { replies = answered env r ∷ c.replies }))
          (get_args-two u p l.user l.password)
        ∙ (double_by-sent command_add_user (pos 2) too_many_args u p stack.response_buf c'
              (user_message command_add_user u p) (answered env r) c.replies
              (double_message_lem command_add_user u p (omega arith) l.user.is_text
                (omega (arith, l.fits)))
            ∙ (rw (response_by-add_result stack.response_buf env r h) (
                ap some (
                  analyze_return-add
                    (record c' {
                      replies = c.replies;
                      sent = c.sent ++ user_message command_add_user u p ∷ [];
                    })
                    r)))))

-- What an addition that is typed does: at the server, and to the client with the server's answer.
abbrev pub AddsTyped :
    (stack : Stack) (c : Client) (u p more : List ℕ) (env : Env) (parser : CommandParser)
    (b : Buffer) (rest : List ℕ) (s : Server)
    → Type 0
AddsTyped stack c u p more env parser b rest s =
    (q : CommandParser) × (b' : Buffer) × (r : AddUserState) × (users' : Users) × (for_bytes
        parse_step is_done is_error (length (contents b)) (init_cp_command_parser parser) b
      ≡ some (q, b'))
    × (contents b' ≡ rest)
    × (Protocol.run_command env q s ≡ (some (add_result r), record s { users = users' }))
    × UsersInv.Adds env.alloc s.users u p (r, users')
    × (new_command stack (record c { replies = answered env r ∷ c.replies })
        ≡ some (
          (told r).0,
          after (record c { stdin = more }) (user_message command_add_user u p) c.replies
              (told r).1,
        ))

-- The user types `adduser u p`, two words of at most 253 bytes together, the name without a colon. The
-- client sends one message. A server whose buffer starts with that message parses it, its
-- `switch` on the code runs `addProxyUser`, and that adds the user as `add_user` does with those two texts; what is behind the
-- message stays in the buffer. Once the client gets the bytes that the server sends as its answer, it
-- tells the user that status and no other, and goes on unless it is the server's own error.
pub adduser_round_trip :
    (stack : Stack) (c : Client) (u p more : List ℕ) (env : Env) (parser : CommandParser)
    (b : Buffer) (rest : List ℕ) (s : Server)
    → c.stdin ≡ codes "adduser" ++ 32 ∷ (u ++ 32 ∷ (p ++ 10 ∷ more))
    → IsLogin u p
    → length stack.response_buf ≡ maxlen
    → length parser.buf ≡ max_data_size + 1
    → IsValid b
    → contents b ≡ user_message command_add_user u p ++ rest
    → UsersInv.IsValid s.users
    → AddsTyped stack c u p more env parser b rest s
adduser_round_trip stack c u p more env parser b rest s typed l h size v e valid =
    let (q, b', parse, left, code, flag, line) =
      parsed_two parser b command_add_user u p rest (omega arith) (omega arith) l size v e in
    let (r, users', answer, adds) = add_proxy_user_lem env.alloc q s u p flag line valid in
    let ran =
      run_command-add_proxy_user env q s (record s { users = users' }) (add_result r) code answer in
    (q, b', r, users', parse, left, ran, adds, told_adduser stack c u p more env r typed l h)
