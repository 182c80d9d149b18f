-- ===== src/Client/Removal.antt =====
-- From `deleteuser` typed in src/client/client.c to the table of users of the server, and back.
use tpe_socks.Prelude.{
  ℕ, suc, ◌+◌, ◌≤◌, ◌<◌, ◌≡◌, ◌≢◌, refl, sym, ap, subst, ◌∙◌, ◌++◌, some, none, List, [], ◌∷◌,
  append_assoc, arith, length, length-append, All-append, store_all, codes, str_eq, if◌then◌else◌,
}
use tpe_socks.Prelude.Int.{ℤ, pos}
use tpe_socks.Buffer.{Buffer}
use tpe_socks.Buffer.Inv.{IsValid}
use tpe_socks.Buffer.Refine.{contents}
use tpe_socks.Buffer.For.{for_bytes}
use tpe_socks.Users.{Text, Users}
use tpe_socks.Users.Table.{lookup}
use tpe_socks.Users.Inv as UsersInv
use tpe_socks.Control.Strtok.{strtok-token}
use tpe_socks.Control.CommandParser.{
  CommandParser, parse_step, is_done, is_error, init_cp_command_parser, max_data_size,
}
use tpe_socks.Control.CommandParser.Message.{finished, for_bytes-command}
use tpe_socks.Control.Commands.{Server, by_status, remove_proxy_user}
use tpe_socks.Control.Commands.Answers.{remove_proxy_user_lem}
use tpe_socks.Control.Protocol as Protocol
use tpe_socks.Control.Protocol.{Env}
use tpe_socks.Control.Protocol.Dispatch.{run_command-remove_proxy_user}
use tpe_socks.Client.{maxlen, command_delete_user, Client}
use tpe_socks.Client.Strings.{c_string-whole}
use tpe_socks.Client.Messages.{single_message_lem}
use tpe_socks.Client.Lines.{IsWord, new_command-line, get_args-one}
use tpe_socks.Client.Dialog.{
  new_command, run_line, run_command, find_command, Stack, Args, single_by,
}
use tpe_socks.Client.Responses.{
  response_by-by_status, after, told_status, single_by-sent, analyze_return-remove,
}
use tpe_socks.Client.Changes.{answered_status}

deleteuser-IsWord : IsWord (codes "deleteuser")
deleteuser-IsWord = record {
  some_byte = omega arith;
  no_space = ground arith;
  no_end = ground arith;
  is_text = ground arith;
}

-- The message with one argument.
abbrev pub name_message : ℕ → Text → List ℕ
name_message code u = code ∷ 1 ∷ (u ++ 10 ∷ [])

typed_deleteuser :
    (stack : Stack) (c : Client) (u more : List ℕ)
    → c.stdin ≡ codes "deleteuser" ++ 32 ∷ (u ++ 10 ∷ more)
    → IsWord u
    → length u ≤ 254
    → new_command stack c
      ≡ single_by command_delete_user
          (pos 3)
          (Args.given (u ∷ []))
          stack.response_buf
          (record c { stdin = more })
unfolding run_line find_command run_command
typed_deleteuser stack c u more e w short =
    let name : List ℕ = codes "deleteuser" in
    let n : IsWord name = deleteuser-IsWord in
    new_command-line stack c (name ++ 32 ∷ u) more
      (e ∙ sym (append_assoc name (32 ∷ u) (10 ∷ more)))
      (All-append (λ x. 0 < x) name (32 ∷ u) n.is_text (omega arith, w.is_text))
      (All-append (λ x. x ≢ 10) name (32 ∷ u) n.no_end (omega arith, w.no_end))
      (omega (arith, length-append name (32 ∷ u)))
    ∙ (rw (strtok-token 32 name u n.some_byte n.no_space) (
        ap
          (λ a.
            single_by command_delete_user (pos 3) a stack.response_buf (record c { stdin = more }))
          (get_args-one u w)))

-- The server's command on the data that its parser has stored of the message.
removed :
    (parser : CommandParser) (s : Server) (u : Text)
    → IsWord u
    → length u ≤ 254
    → length parser.buf ≡ max_data_size + 1
    → UsersInv.IsValid s.users
    → let q =
        finished command_delete_user 1 (store_all parser.buf 0 (u ++ 10 ∷ [])) (suc (length u)) in
      (users' : Users) × (remove_proxy_user q s
        ≡ (by_status (UsersInv.status (lookup u s.users.users)), record s { users = users' }))
      × ((j : Text) → lookup j users'.users ≡ (if str_eq j u then none else lookup j s.users.users))
      × UsersInv.IsValid users'
removed parser s u w short size valid =
    let q : CommandParser =
      finished command_delete_user 1 (store_all parser.buf 0 (u ++ 10 ∷ [])) (suc (length u)) in
    subst
      (λ (k : Text).
        (users' : Users) × (remove_proxy_user q s
          ≡ (by_status (UsersInv.status (lookup k s.users.users)), record s { users = users' }))
        × ((j : Text)
            → lookup j users'.users ≡ (if str_eq j k then none else lookup j s.users.users))
        × UsersInv.IsValid users')
      (c_string-whole u w.is_text)
      (remove_proxy_user_lem q s parser.buf u refl refl (omega arith) (omega arith) valid)

told_deleteuser :
    (stack : Stack) (c : Client) (u more : List ℕ) (env : Env) (z : ℤ)
    → c.stdin ≡ codes "deleteuser" ++ 32 ∷ (u ++ 10 ∷ more)
    → IsWord u
    → length u ≤ 254
    → length stack.response_buf ≡ maxlen
    → new_command stack (record c { replies = answered_status env z ∷ c.replies })
      ≡ some (
        (told_status z).0,
        after
            (record c { stdin = more })
            (name_message command_delete_user u)
            c.replies
            (told_status z).1,
      )
told_deleteuser stack c u more env z typed w short h =
    let c' : Client = record c { stdin = more } in
    let bytes : List ℕ = name_message command_delete_user u in
    typed_deleteuser stack (record c { replies = answered_status env z ∷ c.replies }) u more typed w
      short
    ∙ (single_by-sent command_delete_user (pos 3) u stack.response_buf c' bytes
          (answered_status env z) c.replies
          (single_message_lem command_delete_user u (omega arith) (omega arith))
        ∙ (rw (response_by-by_status stack.response_buf env z h) (
            ap some (
              analyze_return-remove (record c' { replies = c.replies; sent = c.sent ++ bytes ∷ [] })
                z))))

-- What a removal that is typed does: at the server, and to the client with its answer.
abbrev pub RemovesTyped :
    (stack : Stack) (c : Client) (u more : List ℕ) (env : Env) (parser : CommandParser) (b : Buffer)
    (rest : List ℕ) (s : Server)
    → Type 0
RemovesTyped stack c u more env parser b rest s =
    let z = UsersInv.status (lookup u s.users.users) in
    (q : CommandParser) × (b' : Buffer) × (users' : Users) × (for_bytes parse_step is_done is_error
        (length (contents b)) (init_cp_command_parser parser) b
      ≡ some (q, b'))
    × (contents b' ≡ rest)
    × (Protocol.run_command env q s ≡ (some (by_status z), record s { users = users' }))
    × ((j : Text) → lookup j users'.users ≡ (if str_eq j u then none else lookup j s.users.users))
    × UsersInv.IsValid users'
    × (new_command stack (record c { replies = answered_status env z ∷ c.replies })
        ≡ some (
          (told_status z).0,
          after (record c { stdin = more }) (name_message command_delete_user u) c.replies
              (told_status z).1,
        ))

-- The user types `deleteuser u`, a word of at most 254 bytes. The client sends one message. A server
-- whose buffer starts with that message parses it, its `switch` on the code runs `removeProxyUser`, and that takes exactly the
-- user of that name out of the table; what is behind the message stays in the buffer. Once the client
-- gets the bytes that the server sends as its answer, it tells the user whether the name was there.
pub deleteuser_round_trip :
    (stack : Stack) (c : Client) (u more : List ℕ) (env : Env) (parser : CommandParser) (b : Buffer)
    (rest : List ℕ) (s : Server)
    → c.stdin ≡ codes "deleteuser" ++ 32 ∷ (u ++ 10 ∷ more)
    → IsWord u
    → length u ≤ 254
    → length stack.response_buf ≡ maxlen
    → length parser.buf ≡ max_data_size + 1
    → IsValid b
    → contents b ≡ name_message command_delete_user u ++ rest
    → UsersInv.IsValid s.users
    → RemovesTyped stack c u more env parser b rest s
deleteuser_round_trip stack c u more env parser b rest s typed w short h size v e valid =
    let (b', parse, _, left) =
      for_bytes-command parser command_delete_user u rest b size (omega arith) (omega arith)
        (omega arith) w.no_end v
        (e ∙ ap (λ t. command_delete_user ∷ 1 ∷ t) (append_assoc u (10 ∷ []) rest)) in
    let (users', answer, entries, kept) = removed parser s u w short size valid in
    let q : CommandParser =
      finished command_delete_user 1 (store_all parser.buf 0 (u ++ 10 ∷ [])) (suc (length u)) in
    (
      q,
      b',
      users',
      parse,
      left,
      run_command-remove_proxy_user env q s (record s { users = users' })
          (by_status (UsersInv.status (lookup u s.users.users))) refl answer,
      entries,
      kept,
      told_deleteuser stack c u more env (UsersInv.status (lookup u s.users.users)) typed w short h,
    )
