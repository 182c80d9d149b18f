-- ===== src/Control/Protocol/Replies.antt =====
-- The answers that src/controlProtocol/cpCommands.c writes, against the blocks that it allocates for
-- them and against what src/controlProtocol/controlProtocol.c sends of them.
use tpe_socks.Prelude.{
  ℕ, ◌+◌, ◌<◌, ◌≡◌, ◌↔◌, ◌⊎◌, refl, Bool, true, false, Option, some, arith, length, ◌++◌, ◌==◌,
  get_or, inl, inr, Option-cases, Bool-cases, c_string, store_all, length-store_all, leb,
  if◌then◌else◌,
}
use tpe_socks.Prelude.Int.{ℤ, pos, negsuc}
use tpe_socks.Buffer.{buffer_write_ptr, buffer_write_adv}
use tpe_socks.Buffer.Inv.{IsValid}
use tpe_socks.Buffer.Refine.{contents, contents-received}
use tpe_socks.Users.{
  Alloc, AddUserState, add_ok, add_max_users, add_user_exists, add_error, add_user, change_password,
}
use tpe_socks.Control.CommandParser.{
  CommandParser, init_cp_command_parser, cp_add_user, cp_rem_user, cp_change_pass, cp_dissector_on,
  cp_dissector_off,
}
use tpe_socks.Control.Commands.{
  Server, Answer, status_error, user_limit, already_exists, general_error, inexisting_user,
  two_tokens, add_result, by_status, add_proxy_user, remove_proxy_user, change_password_command,
  switch_pass_dissectors, no_data_status_success_answer, status_failed_answer, command_needs_data,
  invalid_format, no_data_command,
}
use tpe_socks.Control.Conn.{cp_execute, Conn, put}
use tpe_socks.Control.Protocol.{Env, run_command, send_answer, sent_bytes}

-- An answer that is a status.
abbrev pub IsReply : Answer → Type 0
IsReply a = (a ≡ no_data_status_success_answer) ⊎ ((code : ℕ) × (a ≡ status_failed_answer code))

reply_overflows :
    (a : Answer) → IsReply a → (a.size < length a.written) ↔ (get_or a.written 0 0 ≡ status_error)
unfolding no_data_status_success_answer status_failed_answer
reply_overflows a (inl e) = rw e (ground arith)
reply_overflows a (inr (c, e)) = rw e (ground arith)

add_result-IsReply : (r : AddUserState) → IsReply (add_result r)
unfolding add_result
add_result-IsReply add_max_users = inr (user_limit, refl)
add_result-IsReply add_user_exists = inr (already_exists, refl)
add_result-IsReply add_ok = inl refl
add_result-IsReply add_error = inr (general_error, refl)

by_status-IsReply : (z : ℤ) → IsReply (by_status z)
unfolding by_status
by_status-IsReply (pos n) = inl refl
by_status-IsReply (negsuc n) = inr (inexisting_user, refl)

add_proxy_user-IsReply :
    (alloc : Alloc) (p : CommandParser) (s : Server) → IsReply (add_proxy_user alloc p s).0
unfolding add_proxy_user
add_proxy_user-IsReply alloc p s = elim (Bool-cases (p.has_data == 0)) [
  | inl e ↦ rw e (inr (command_needs_data, refl))
  | inr e ↦ rw e (elim (Option-cases (two_tokens (c_string p.buf))) [
    | inl f ↦ rw f (inr (invalid_format, refl))
    | inr ((u, w), f) ↦ rw f (add_result-IsReply (add_user alloc s.users u w).0)
  ])
]

change_password_command-IsReply :
    (p : CommandParser) (s : Server) → IsReply (change_password_command p s).0
unfolding change_password_command
change_password_command-IsReply p s = elim (Bool-cases (p.has_data == 0)) [
  | inl e ↦ rw e (inr (command_needs_data, refl))
  | inr e ↦ rw e (elim (Option-cases (two_tokens (c_string p.buf))) [
    | inl f ↦ rw f (inr (invalid_format, refl))
    | inr ((u, w), f) ↦ rw f (by_status-IsReply (change_password s.users (some u) w).0)
  ])
]

remove_proxy_user-IsReply : (p : CommandParser) (s : Server) → IsReply (remove_proxy_user p s).0
unfolding remove_proxy_user
remove_proxy_user-IsReply p s = elim (Bool-cases (p.has_data == 0)) [
  | inl e ↦ rw e (inr (command_needs_data, refl))
  | inr e ↦ rw e (by_status-IsReply _)
]

switch_pass_dissectors-IsReply :
    (p : CommandParser) (v : Bool) (s : Server) → IsReply (switch_pass_dissectors p v s).0
unfolding switch_pass_dissectors
switch_pass_dissectors-IsReply p v s = elim (Bool-cases (p.has_data == 1)) [
  | inl e ↦ rw e (inr (no_data_command, refl))
  | inr e ↦ rw e (inl refl)
]

-- The commands whose answer is a status: to add, remove or change a user, and the sniffer's switch.
pub data Switches : ℕ → Type 0 where
  add : Switches cp_add_user
  rem : Switches cp_rem_user
  change : Switches cp_change_pass
  on : Switches cp_dissector_on
  off : Switches cp_dissector_off

-- There is an answer, a status, and it is too long for its block exactly if it starts with '0'.
abbrev pub Answered : Option Answer → Type 0
Answered o =
    (a : Answer) × (o ≡ some a)
    × IsReply a
    × ((a.size < length a.written) ↔ (get_or a.written 0 0 ≡ status_error))

-- Each command that changes the server is answered, by the byte '1' or '0', and the answer is written
-- past the end of its block exactly if it is a refusal.
pub run_command_overflows :
    (env : Env) (p : CommandParser) (s : Server)
    → Switches p.code
    → Answered (run_command env p s).0
unfolding run_command
run_command_overflows env p s k = go p.code refl k
  where
    reply : (a : Answer) → IsReply a → Answered (some a)
    reply a r = (a, refl, r, reply_overflows a r)

    go : (n : ℕ) → p.code ≡ n → Switches n → Answered (run_command env p s).0
    go _ e add = rw e (reply _ (add_proxy_user-IsReply env.alloc p s))
    go _ e rem = rw e (reply _ (remove_proxy_user-IsReply p s))
    go _ e change = rw e (reply _ (change_password_command-IsReply p s))
    go _ e on = rw e (reply _ (switch_pass_dissectors-IsReply p true s))
    go _ e off = rw e (reply _ (switch_pass_dissectors-IsReply p false s))

-- An answer that fits behind what the write buffer holds is queued there, as far as its first zero
-- byte, and the parser is ready for the next command. One that does not fit is kept for the next
-- write event, and the buffer is as it was.
pub send_answer_lem :
    (env : Env) (a : Answer) (c : Conn)
    → IsValid c.write_buffer
    → (c' : Conn) × (send_answer env a c ≡ some (cp_execute, c'))
      × (c'.exec_answer ≡ some a)
      × IsValid c'.write_buffer
      × (contents c'.write_buffer ≡ (
          if leb (c.write_buffer.write + length (sent_bytes env a)) c.write_buffer.limit
          then contents c.write_buffer ++ sent_bytes env a
          else contents c.write_buffer))
unfolding send_answer buffer_write_ptr put buffer_write_adv
send_answer_lem env a c v =
    elim (Bool-cases
      (leb (c.write_buffer.write + length (sent_bytes env a)) c.write_buffer.limit)) [
        | inl fits ↦ (
          record c {
            write_buffer = record (c.write_buffer) {
              bytes = store_all c.write_buffer.bytes c.write_buffer.write (sent_bytes env a);
              write = c.write_buffer.write + length (sent_bytes env a);
            };
            exec_answer = some a;
            exec_ans_written = true;
            command_parser = init_cp_command_parser c.command_parser;
          },
          ground arith,
          refl,
          ground (
            arith,
            length-store_all c.write_buffer.bytes c.write_buffer.write (sent_bytes env a),
          ),
          rw fits (contents-received c.write_buffer (sent_bytes env a) v (ground arith)),
        )
        | inr full ↦ (record c { exec_answer = some a }, ground arith, refl, v, rw full refl)
      ]
