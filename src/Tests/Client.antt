-- ===== src/Tests/Client.antt =====
-- Whole lines that are typed in src/client/client.c, with a server of two users behind the connection.
use tpe_socks.Prelude.{ℕ, refl, true, List, [], ◌∷◌, ◌++◌, arith, codes, replicate, ◌≡◌, some}
use tpe_socks.Control.Commands.{Server}
use tpe_socks.Control.Protocol.{Env}
use tpe_socks.Metrics.{start_metrics}
use tpe_socks.Client.{received, Client}
use tpe_socks.Client.Dialog.{Stack}
use tpe_socks.Client.Connect.{mng_login}
use tpe_socks.Client.Logins.{IsLogin}
use tpe_socks.Client.RoundTrip.{AddsTyped, adduser_round_trip}
use tpe_socks.Client.Changes.{EditsTyped, editpass_round_trip}
use tpe_socks.Client.Removal.{RemovesTyped, deleteuser_round_trip}
use tpe_socks.Client.Session.{LoggedIn, mng_login-LoggedIn}
use tpe_socks.Client.Ending.{Runs, Leaves, command_loop_total}
use tpe_socks.Control.Commands.{get_socks_users}
use tpe_socks.Control.Protocol.{sent_bytes}
use tpe_socks.Client.Listing.{list_users}
use tpe_socks.Client.Tokens.{row_lines}
use tpe_socks.Client.Printed.{title}
use tpe_socks.Client.Listed.{IsPrintable, list_users_lem}
use tpe_socks.Tests.Parsers.{full, full-IsValid}
use tpe_socks.Tests.Control.{command_parser}
use tpe_socks.Tests.Users.{two_users, two_users-IsValid, plenty, alice, carol, sesame}

abbrev stack : Stack
stack = record { ret = 7; response_buf = replicate 1024 0 }

abbrev typing : List ℕ → Client
typing line = record { stdin = line; replies = []; sent = []; printed = [] }

abbrev env : Env
env = record { alloc = plenty; behind = 0 ∷ [] }

abbrev server : Server
server = record { users = two_users; metrics = start_metrics; sniffer_on = true }

carol-IsLogin : IsLogin carol sesame
carol-IsLogin = record {
  user = record {
    some_byte = omega arith;
    no_space = ground arith;
    no_end = ground arith;
    is_text = ground arith;
  };
  password = record {
    some_byte = omega arith;
    no_space = ground arith;
    no_end = ground arith;
    is_text = ground arith;
  };
  no_colon = ground arith;
  fits = omega arith;
}

alice-IsLogin : IsLogin alice sesame
alice-IsLogin = record {
  user = record {
    some_byte = omega arith;
    no_space = ground arith;
    no_end = ground arith;
    is_text = ground arith;
  };
  password = carol-IsLogin.password;
  no_colon = ground arith;
  fits = omega arith;
}

abbrev added : List ℕ
added = b'1' ∷ 1 ∷ (codes "carol:sesame" ++ 10 ∷ [])

type_carol :
    AddsTyped stack
      (typing (codes "adduser carol sesame" ++ 10 ∷ []))
      carol
      sesame
      []
      env
      command_parser
      (full added)
      []
      server
type_carol =
    adduser_round_trip stack (typing (codes "adduser carol sesame" ++ 10 ∷ [])) carol sesame [] env
      command_parser (full added) [] server refl carol-IsLogin refl refl (full-IsValid added) refl
      two_users-IsValid

abbrev edited : List ℕ
edited = b'3' ∷ 1 ∷ (codes "alice:sesame" ++ 10 ∷ [])

type_alice :
    EditsTyped stack
      (typing (codes "editpass alice sesame" ++ 10 ∷ []))
      alice
      sesame
      []
      env
      command_parser
      (full edited)
      []
      server
type_alice =
    editpass_round_trip stack (typing (codes "editpass alice sesame" ++ 10 ∷ [])) alice sesame []
      env command_parser (full edited) [] server refl alice-IsLogin refl refl (full-IsValid edited)
      refl two_users-IsValid

abbrev removed : List ℕ
removed = b'2' ∷ 1 ∷ (codes "alice" ++ 10 ∷ [])

untype_alice :
    RemovesTyped stack
      (typing (codes "deleteuser alice" ++ 10 ∷ []))
      alice
      []
      env
      command_parser
      (full removed)
      []
      server
untype_alice =
    deleteuser_round_trip stack (typing (codes "deleteuser alice" ++ 10 ∷ [])) alice [] env
      command_parser (full removed) [] server refl alice-IsLogin.user (omega arith) refl refl
      (full-IsValid removed) refl two_users-IsValid

-- A server that greets and accepts the first password.
abbrev connected : Client
connected = record {
  stdin = codes "pass1234" ++ 10 ∷ [];
  replies = received (b'1' ∷ 1 ∷ (codes "1.0" ++ 10 ∷ [])) ∷ received (b'1' ∷ []) ∷ [];
  sent = [];
  printed = [];
}

type_password : LoggedIn 0 (mng_login (replicate 1024 0) (replicate 1024 0) connected)
type_password = mng_login-LoggedIn (replicate 1024 0) (replicate 1024 0) connected

type_exit :
    Runs 6 (λ _. stack) (typing (codes "exit" ++ 10 ∷ []))
    × Leaves 6 (λ _. stack) (typing (codes "exit" ++ 10 ∷ []))
type_exit = command_loop_total 6 (λ _. stack) (typing (codes "exit" ++ 10 ∷ [])) (omega arith)

two_users-IsPrintable : IsPrintable two_users.users
two_users-IsPrintable = (
  (
    record { some_byte = omega arith; is_text = ground arith; no_end = ground arith },
    (record { some_byte = omega arith; is_text = ground arith; no_end = ground arith }, tt),
  ),
  (omega arith, (omega arith, tt)),
)

list_two_names :
    list_users b'4' (record (typing []) {
      replies = received (sent_bytes env (get_socks_users command_parser server).0) ∷ [];
    })
    ≡ some (
      b'i',
      record (typing []) {
        sent = (b'4' ∷ 0 ∷ []) ∷ [];
        printed = (title ++ 10 ∷ []) ∷ row_lines (codes "alice" ∷ codes "bob" ∷ []);
      },
    )
list_two_names =
    list_users_lem (typing []) env command_parser server two_users-IsValid two_users-IsPrintable
      (omega arith)
