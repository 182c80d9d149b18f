-- ===== src/Tests/Turn.antt =====
-- A full table with one descriptor, the event loop over it, and the loops and arguments on small inputs.
use tpe_socks.Prelude.{
  ℕ, Bool, ltb, zero, suc, ◌≤◌, ◌<◌, ◌≡◌, refl, true, false, Option, none, some, List, [], ◌∷◌,
  arith, replicate, set, codes,
}
use tpe_socks.Prelude.Int.{ℤ, pos}
use tpe_socks.Metrics.{start_metrics}
use tpe_socks.Selector.{Status, Item, Selector, is_used, selector_register}
use tpe_socks.Selector.Highest.{slot}
use tpe_socks.Selector.Inv.{slot-replicate, changed, changed-IsValid}
use tpe_socks.Selector.Register.{Registered}
use tpe_socks.Selector.Full.{start_table, start_table-IsFull, IsFull, selector_register-IsFull}
use tpe_socks.Selector.Dispatch.{ready_fds}
use tpe_socks.Selector.Turn.{Turns, selector_select-Returns}
use tpe_socks.Control.Accept.Turn.{
  World, IsKernel, IsListening, callbacks, callbacks-Promises, listener, only,
}
use tpe_socks.Netutils.{Network, recv_failed, sock_blocking_write, sock_blocking_copy}
use tpe_socks.Netutils.Sent.{
  IsBounded, Sent, Delivered, sock_blocking_write-Sent, sock_blocking_copy_lem,
}
use tpe_socks.Args.{port, parse_args}
use tpe_socks.Args.Accepted as Accepted
use tpe_socks.Args.Accepted.{Accepts, port_lem, parse_args-Accepts}
use tpe_socks.Control.ConnList.{init_conn_list}
use tpe_socks.Control.Accept.{Listening}
use tpe_socks.Control.Accept.Refused.{
  Refuses, refused_then_faults, AcceptsAt, passive_cp_socket_handler-accepts,
}
use tpe_socks.Tests.Buffer.{two_bytes, two_bytes-IsValid}
use tpe_socks.Tests.Users.{two_users, two_users-IsValid, plenty}

abbrev reader : Item
reader = record {
  interest = record { op_read = true; op_write = false };
  handler = record { address = 4096; has_close = true };
  attached = 9;
}

register_last :
    (r : Status × Selector) × (selector_register false start_table (pos 1023) reader ≡ some r)
    × Registered start_table 1023 reader true r
    × IsFull r.1
register_last =
    selector_register-IsFull false start_table 1023 reader start_table-IsFull (omega arith)

-- The same table with the listening socket on descriptor 3.
abbrev table : Selector
table = changed start_table 3 (some listener) 3

used_below :
    (n k i : ℕ) (x : Item) → is_used (slot (set (replicate n none) k (some x)) i) ≡ true → i ≤ k
used_below zero k i x u = cc
used_below (suc n) zero zero x u = omega arith
used_below (suc n) zero (suc i) x u = absurd (ground (arith, slot-replicate n i))
used_below (suc n) (suc k) zero x u = cc
used_below (suc n) (suc k) (suc i) x u = omega (arith, used_below n k i x u)

table-IsFull : IsFull table
unfolding changed
table-IsFull = record {
  valid =
      changed-IsValid start_table 3 (some listener) 3 start_table-IsFull.valid (omega arith)
        (omega arith) (λ i u. used_below 1025 3 i listener u);
  size = refl;
}

-- A system that gives the descriptor 4 while it is free.
abbrev four_if : Option Item → Option ℕ
four_if none = some 4
four_if (some x) = none

abbrev accept_four : Selector → Option ℕ
accept_four s = four_if (slot s.fds 4)

four_if-some : (o : Option Item) (fd : ℕ) → four_if o ≡ some fd → (fd ≡ 4) × (o ≡ none)
four_if-some none fd e = (ground (arith, e), refl)
four_if-some (some x) fd e = cc

accept_four-IsKernel : IsKernel accept_four
accept_four-IsKernel = record {
  low = λ s fd e. omega (arith, four_if-some (slot s.fds 4) fd e);
  free = λ s fd e. let (four, free) = four_if-some (slot s.fds 4) fd e in rw four free;
}

abbrev listening_at_three : Selector × World
listening_at_three = (table, (start_metrics, [], init_conn_list))

accept_turn :
    Turns
      (callbacks accept_four 7)
      (IsListening 3 listener)
      (ready_fds (only 3))
      []
      listening_at_three
unfolding changed
accept_turn =
    selector_select-Returns (callbacks accept_four 7) (IsListening 3 listener) (ready_fds (only 3))
      [] listening_at_three (callbacks-Promises accept_four 7 3 accept_four-IsKernel)
      (record { full = table-IsFull; here = refl; open_list = refl })

-- A network that takes one byte of those that it is offered.
abbrev one_each : ℕ → List ℕ → ℤ
one_each i [] = pos 0
one_each i (x ∷ xs) = pos 1

abbrev slow : Network
slow = record { send = one_each; errno = λ _. 11 }

slow-IsBounded : IsBounded slow
slow-IsBounded i [] n e = ground arith
slow-IsBounded i (x ∷ xs) n e = ground arith

write_two : Sent slow (8 ∷ 9 ∷ []) (sock_blocking_write 3 slow 0 two_bytes)
write_two =
    sock_blocking_write-Sent 3 slow 0 two_bytes slow-IsBounded two_bytes-IsValid (omega arith)

copy_three :
    Delivered slow
      (1 ∷ 2 ∷ 3 ∷ [])
      (sock_blocking_copy 3 slow 0 ((1 ∷ 2 ∷ []) ∷ (3 ∷ []) ∷ []) (recv_failed 104))
copy_three =
    sock_blocking_copy_lem 3 slow 0 ((1 ∷ 2 ∷ []) ∷ (3 ∷ []) ∷ []) (recv_failed 104) slow-IsBounded
      (omega arith, (omega arith, tt))

port_one_less : port (codes "65536") ≡ none
port_one_less = port_lem b'6' (codes "5536") (ground arith)

-- There is memory for the users of the options until the last one.
abbrev not_last : ℕ → Bool
not_last n = ltb 0 n

parse_proxy_port :
    Accepts not_last 2 (
      parse_args plenty not_last
        ((b'u', codes "carol:sesame") ∷ (b'p', codes "1081") ∷ [])
        []
        two_users
        true
        false)
    × (0 < 0
        → Accepted.Refuses not_last 2 (
            parse_args plenty not_last
              ((b'u', codes "carol:sesame") ∷ (b'p', codes "1081") ∷ [])
              []
              two_users
              true
              false))
parse_proxy_port =
    parse_args-Accepts plenty not_last ((b'u', codes "carol:sesame") ∷ (b'p', codes "1081") ∷ []) []
      two_users true false two_users-IsValid

abbrev idle : Listening
idle = record {
  selector = start_table;
  metrics = start_metrics;
  closed = [];
  conn_list = init_conn_list;
}

refuse_last : Refuses idle 1024 1 7 2 true true
refuse_last = refused_then_faults idle 1024 1 7 2 true true refl (omega arith)

accept_seven : AcceptsAt idle 7 1 false
accept_seven =
    passive_cp_socket_handler-accepts idle 7 1 false refl (omega arith) start_table-IsFull refl
