-- ===== src/Client/Responses.antt =====
-- What src/client/commands.c makes of the answers of src/controlProtocol/cpCommands.c that are a status,
-- and what src/client/client.c tells the user then.
use tpe_socks.Prelude.{
  ℕ, ◌<◌, ◌≡◌, refl, ap, ◌∙◌, ◌++◌, some, List, [], ◌∷◌, arith, length, take, store_all,
  get_or-store_all_before, c_string, codes,
}
use tpe_socks.Prelude.Int.{ℤ, pos, negsuc}
use tpe_socks.Users.{AddUserState, add_ok, add_max_users, add_user_exists, add_error}
use tpe_socks.Control.Commands.{
  add_result, by_status, status_failed_answer, no_data_status_success_answer, status_error,
}
use tpe_socks.Control.Protocol.{Env, sent_bytes}
use tpe_socks.Client.{
  Text, maxlen, Reply, received, Client, status_of, response_by, receive_simple_response, send,
  print, single_message, double_message, single_arg_command, double_arg_command,
}
use tpe_socks.Client.Dialog.{analyze_return, analyzed, double_by, single_by, Args}

status_of-three :
    (stack : List ℕ) (code : ℕ) (rest : List ℕ)
    → length stack ≡ maxlen
    → status_of (store_all stack 0 (status_error ∷ 1 ∷ code ∷ rest)) ≡ code
unfolding status_of
status_of-three [] code rest h = absurd (omega arith)
status_of-three (x ∷ []) code rest h = absurd (omega arith)
status_of-three (x ∷ y ∷ []) code rest h = absurd (omega arith)
status_of-three (x ∷ y ∷ z ∷ tl) code rest h =
    rw
      (
        get_or-store_all_before (status_error ∷ 1 ∷ code ∷ tl) 0 3 rest (omega arith),
        get_or-store_all_before (status_error ∷ 1 ∷ code ∷ tl) 1 3 rest (omega arith),
        get_or-store_all_before (status_error ∷ 1 ∷ code ∷ tl) 2 3 rest (omega arith),
      )
      refl

-- A failure is read as its code.
response_by-failed :
    (stack : List ℕ) (env : Env) (code : ℕ)
    → length stack ≡ maxlen
    → 0 < code
    → response_by stack (received (sent_bytes env (status_failed_answer code))) ≡ code
unfolding response_by status_failed_answer
response_by-failed stack env code h p =
    let cut : sent_bytes env (status_failed_answer code)
        ≡ status_error ∷ 1 ∷ code ∷ 10 ∷ c_string env.behind =
      ground (arith, p) in
    ap (λ bytes. response_by stack (received bytes)) cut
    ∙ status_of-three stack code (take 1021 (10 ∷ c_string env.behind)) h

-- A success, of which the server sends one byte, is read as `'i'`.
response_by-success :
    (stack : List ℕ) (env : Env)
    → length stack ≡ maxlen
    → response_by stack (received (sent_bytes env no_data_status_success_answer)) ≡ b'i'
unfolding response_by no_data_status_success_answer status_of
response_by-success [] env h = absurd (omega arith)
response_by-success (x ∷ stack) env h = refl

-- What an answer to a change of the users is read as.
abbrev pub code_of : AddUserState → ℕ
code_of add_ok = b'i'
code_of add_max_users = b'6'
code_of add_user_exists = b'5'
code_of add_error = b'7'

pub response_by-add_result :
    (stack : List ℕ) (env : Env) (r : AddUserState)
    → length stack ≡ maxlen
    → response_by stack (received (sent_bytes env (add_result r))) ≡ code_of r
unfolding add_result
response_by-add_result stack env add_ok h = response_by-success stack env h
response_by-add_result stack env add_max_users h =
    response_by-failed stack env (code_of add_max_users) h (omega arith)
response_by-add_result stack env add_user_exists h =
    response_by-failed stack env (code_of add_user_exists) h (omega arith)
response_by-add_result stack env add_error h =
    response_by-failed stack env (code_of add_error) h (omega arith)

abbrev pub code_of_status : ℤ → ℕ
code_of_status (pos _) = b'i'
code_of_status (negsuc _) = b'4'

pub response_by-by_status :
    (stack : List ℕ) (env : Env) (z : ℤ)
    → length stack ≡ maxlen
    → response_by stack (received (sent_bytes env (by_status z))) ≡ code_of_status z
unfolding by_status
response_by-by_status stack env (pos n) h = response_by-success stack env h
response_by-by_status stack env (negsuc n) h =
    response_by-failed stack env (code_of_status (negsuc n)) h (omega arith)

-- The client behind a command: what it has sent and what it says.
abbrev pub after : Client → List ℕ → List Reply → Text → Client
after c bytes rest text = record {
  stdin = c.stdin;
  replies = rest;
  sent = c.sent ++ bytes ∷ [];
  printed = c.printed ++ (text ++ 10 ∷ []) ∷ [];
}

-- What the user is told of an addition, and whether the dialog is over.
abbrev pub told : AddUserState → ℕ × Text
told add_ok = (0, codes "OK!")
told add_max_users = (0, codes "Error: user limit reached")
told add_user_exists = (0, codes "Error: user already exists")
told add_error = (1, codes "Unexpected server error")

abbrev pub told_status : ℤ → ℕ × Text
told_status (pos _) = (0, codes "OK!")
told_status (negsuc _) = (0, codes "Error: user does not exist")

pub double_by-sent :
    (command : ℕ) (cmd : ℤ) (error : Client → ℕ × Client) (u p : Text) (stack : List ℕ) (c : Client)
    (bytes : List ℕ) (reply : Reply) (rest : List Reply)
    → double_message command u p ≡ some bytes
    → double_by command cmd error
        (Args.given (u ∷ p ∷ []))
        stack
        (record c { replies = reply ∷ rest })
      ≡ some (
          analyze_return cmd
            (response_by stack reply)
            (record c { replies = rest; sent = c.sent ++ bytes ∷ [] }))
unfolding double_by analyzed double_arg_command send receive_simple_response
double_by-sent command cmd error u p stack c bytes reply rest e = rw e refl

pub single_by-sent :
    (command : ℕ) (cmd : ℤ) (u : Text) (stack : List ℕ) (c : Client) (bytes : List ℕ)
    (reply : Reply) (rest : List Reply)
    → single_message command u ≡ some bytes
    → single_by command cmd (Args.given (u ∷ [])) stack (record c { replies = reply ∷ rest })
      ≡ some (
          analyze_return cmd
            (response_by stack reply)
            (record c { replies = rest; sent = c.sent ++ bytes ∷ [] }))
unfolding single_by analyzed single_arg_command send receive_simple_response
single_by-sent command cmd u stack c bytes reply rest e = rw e refl

pub analyze_return-add :
    (c : Client) (r : AddUserState)
    → analyze_return (pos 2) (code_of r) c
      ≡ ((told r).0, record c { printed = c.printed ++ ((told r).1 ++ 10 ∷ []) ∷ [] })
unfolding analyze_return print
analyze_return-add c add_ok = refl
analyze_return-add c add_max_users = refl
analyze_return-add c add_user_exists = refl
analyze_return-add c add_error = refl

pub analyze_return-remove :
    (c : Client) (z : ℤ)
    → analyze_return (pos 3) (code_of_status z) c
      ≡ ((told_status z).0, record c { printed = c.printed ++ ((told_status z).1 ++ 10 ∷ []) ∷ [] })
unfolding analyze_return print
analyze_return-remove c (pos n) = refl
analyze_return-remove c (negsuc n) = refl

pub analyze_return-edit :
    (c : Client) (z : ℤ)
    → analyze_return (pos 4) (code_of_status z) c
      ≡ ((told_status z).0, record c { printed = c.printed ++ ((told_status z).1 ++ 10 ∷ []) ∷ [] })
unfolding analyze_return print
analyze_return-edit c (pos n) = refl
analyze_return-edit c (negsuc n) = refl
