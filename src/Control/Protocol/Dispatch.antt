-- ===== src/Control/Protocol/Dispatch.antt =====
-- The `switch` of `executeWrite` in src/controlProtocol/controlProtocol.c on the code that the parser found.
use tpe_socks.Prelude.{◌≡◌, refl, some}
use tpe_socks.Control.CommandParser.{CommandParser, cp_add_user, cp_rem_user, cp_change_pass}
use tpe_socks.Control.Commands.{
  Server, Answer, add_proxy_user, remove_proxy_user, change_password_command,
}
use tpe_socks.Control.Protocol.{Env, run_command}

pub run_command-add_proxy_user :
    (env : Env) (q : CommandParser) (s s' : Server) (a : Answer)
    → q.code ≡ cp_add_user
    → add_proxy_user env.alloc q s ≡ (a, s')
    → run_command env q s ≡ (some a, s')
unfolding run_command
run_command-add_proxy_user env q s s' a code e = rw (run_command, code, e) refl

pub run_command-remove_proxy_user :
    (env : Env) (q : CommandParser) (s s' : Server) (a : Answer)
    → q.code ≡ cp_rem_user
    → remove_proxy_user q s ≡ (a, s')
    → run_command env q s ≡ (some a, s')
unfolding run_command
run_command-remove_proxy_user env q s s' a code e = rw (run_command, code, e) refl

pub run_command-change_password_command :
    (env : Env) (q : CommandParser) (s s' : Server) (a : Answer)
    → q.code ≡ cp_change_pass
    → change_password_command q s ≡ (a, s')
    → run_command env q s ≡ (some a, s')
unfolding run_command
run_command-change_password_command env q s s' a code e = rw (run_command, code, e) refl
