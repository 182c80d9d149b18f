-- ===== src/Socks/Attempts.antt =====
-- The attempts of src/socks5/socks5.c to reach an origin that was requested by name.
use tpe_socks.Prelude.{
  ℕ, suc, ◌+◌, ◌≡◌, ◌≢◌, refl, subst, ap, Bool, true, false, some, none, List, [], ◌∷◌, arith, ◌==◌,
  ◌&&◌, if◌then◌else◌, length, Option-cases, Bool-cases, inl, inr,
}
use tpe_socks.Prelude.Int.{ℤ, pos}
use tpe_socks.Selector.{selector_unregister_fd, selector_register}
use tpe_socks.Parsers.Req.{
  econnrefused, ehostunreach, enetunreach, etimedout, other_error, Errno, no_error,
  errno_to_req_response_state,
}
use tpe_socks.Parsers.Req.ReqAtyp
use tpe_socks.Parsers.Req.ResState
use tpe_socks.Socks.Conn.{
  req_connecting, req_writing, failed, AddrInfo, SocksConn, World, Next, op_noop, op_write,
  set_interest, is_success,
}
use tpe_socks.Socks.Response.{manage_req_error, req_response_message, set_res_parser}
use tpe_socks.Socks.Request.{
  Dial, Connected, started, refused, init_connection, register_origin, conn_actions_handler,
  req_dns, retry, connected_or_not, req_connect,
}

-- The addresses that are left after a handler.
abbrev LeftAfter : Next → ℕ → Type 0
LeftAfter none n = Unit {0}
LeftAfter (some (t, c, w)) n = length c.curr_addr ≡ n

manage_req_error-LeftAfter :
    (s : ℕ) (c : SocksConn) (w : World) → LeftAfter (manage_req_error s c w) (length c.curr_addr)
unfolding manage_req_error
manage_req_error-LeftAfter s c w = elim (Option-cases (set_interest w c.cli_socket op_write)) [
  | inl h ↦ rw h tt
  | inr ((t, w'), h) ↦
      elim (Option-cases
        (req_response_message c.write_buff (set_res_parser c.req_parser s).res_parser)) [
          | inl k ↦ rw (h, k) tt
          | inr ((n, b), k) ↦ rw (h, k) refl
        ]
]

register_origin-LeftAfter :
    (alloc : Bool) (fd : ℕ) (c : SocksConn) (w : World)
    → LeftAfter (register_origin alloc fd c w) (length c.curr_addr)
unfolding register_origin
register_origin-LeftAfter alloc fd c w =
    elim (Option-cases (
      selector_register alloc w.selector (pos fd)
        (record { interest = op_write; handler = conn_actions_handler; attached = c.self }))) [
          | inl h ↦ rw h tt
          | inr ((t, s), h) ↦ rw h refl
        ]

started-LeftAfter :
    (d : Dial) (fd : ℕ) (c : SocksConn) (w : World) (r : Connected)
    → d.socket c.src_addr_family ≡ some fd
    → d.connect c.src_addr ≡ r
    → LeftAfter (init_connection d c w) (length c.curr_addr)
unfolding init_connection
started-LeftAfter d fd c w started h k = elim (Option-cases (set_interest w c.cli_socket op_noop)) [
  | inl q ↦ rw (init_connection, h, k, q) tt
  | inr ((t, w'), q) ↦ elim (Bool-cases (is_success t)) [
    | inl u ↦
        rw (init_connection, h, k, q, u)
          (register_origin-LeftAfter d.alloc fd (record c { src_socket = pos fd }) w')
    | inr u ↦ rw (init_connection, h, k, q, u) refl
  ]
]
started-LeftAfter d fd c w (refused e) h k =
    rw (init_connection, h, k)
      (manage_req_error-LeftAfter (errno_to_req_response_state e) (record c { src_socket = pos fd })
        w)

init_connection-LeftAfter :
    (d : Dial) (c : SocksConn) (w : World) → LeftAfter (init_connection d c w) (length c.curr_addr)
unfolding init_connection
init_connection-LeftAfter d c w = elim (Option-cases (d.socket c.src_addr_family)) [
  | inl h ↦ rw (init_connection, h) refl
  | inr (fd, h) ↦ started-LeftAfter d fd c w (d.connect c.src_addr) h refl
]

-- The next address is used up; after the last one the reply is that the host cannot be reached.
req_dns-LeftAfter :
    (d : Dial) (c : SocksConn) (w : World) (a : AddrInfo) (rest : List AddrInfo)
    → c.curr_addr ≡ a ∷ rest
    → LeftAfter (req_dns d c w) (length rest)
unfolding req_dns
req_dns-LeftAfter d c w a rest h = rw h (
    init_connection-LeftAfter d
      (record c { src_addr_family = a.family; src_addr = a.addr; curr_addr = rest }) w)

-- The handler does not wait for another connection.
abbrev GivesUp : Next → Type 0
GivesUp none = Unit {0}
GivesUp (some (t, c, w)) = t ≢ req_connecting

answered_or_failed : (b : Bool) → (if b then req_writing else failed) ≢ req_connecting
answered_or_failed true h = cc
answered_or_failed false h = cc

manage_req_error-GivesUp : (s : ℕ) (c : SocksConn) (w : World) → GivesUp (manage_req_error s c w)
unfolding manage_req_error
manage_req_error-GivesUp s c w = elim (Option-cases (set_interest w c.cli_socket op_write)) [
  | inl h ↦ rw h tt
  | inr ((t, w'), h) ↦
      elim (Option-cases
        (req_response_message c.write_buff (set_res_parser c.req_parser s).res_parser)) [
          | inl k ↦ rw (h, k) tt
          | inr ((n, b), k) ↦
              rw (h, k)
                (answered_or_failed (is_success t && elim n [ none ↦ false | some _ ↦ true ]))
        ]
]

-- A failing attempt for a name, by what is left to try.
abbrev Tried : List AddrInfo → Next → Type 0
Tried [] n = GivesUp n
Tried (a ∷ rest) n = LeftAfter n (length rest)

req_dns-Tried :
    (d : Dial) (c : SocksConn) (w : World) (l : List AddrInfo)
    → c.curr_addr ≡ l
    → Tried l (req_dns d c w)
unfolding req_dns
req_dns-Tried d c w [] h = rw h (
    manage_req_error-GivesUp ResState.host_unreachable
      (record c { resolved_addr = none; curr_addr = [] }) w)
req_dns-Tried d c w (a ∷ rest) h = req_dns-LeftAfter d c w a rest h

none-Tried : (l : List AddrInfo) → Tried l none
none-Tried [] = tt
none-Tried (a ∷ rest) = tt

retry-Tried : (d : Dial) (c : SocksConn) (w : World) → Tried c.curr_addr (retry d c w)
unfolding retry
retry-Tried d c w = elim (Option-cases (selector_unregister_fd w.selector c.src_socket false)) [
  | inl h ↦ rw h (none-Tried c.curr_addr)
  | inr ((t, s, x), h) ↦ rw h (req_dns-Tried d c _ c.curr_addr refl)
]

named :
    (c : SocksConn) → c.req_parser.type ≡ ReqAtyp.fqdn → (c.req_parser.type == ReqAtyp.fqdn) ≡ true
named c h = rw h refl

connected_or_not-Tried :
    (fd : ℤ) (e : Errno) (d : Dial) (c : SocksConn) (w : World)
    → e ≢ no_error
    → c.req_parser.type ≡ ReqAtyp.fqdn
    → Tried c.curr_addr (connected_or_not fd d e c w)
unfolding connected_or_not
connected_or_not-Tried fd no_error d c w n h = absurd (n refl)
connected_or_not-Tried fd econnrefused d c w n h = rw (named c h) (retry-Tried d c w)
connected_or_not-Tried fd ehostunreach d c w n h = rw (named c h) (retry-Tried d c w)
connected_or_not-Tried fd enetunreach d c w n h = rw (named c h) (retry-Tried d c w)
connected_or_not-Tried fd etimedout d c w n h = rw (named c h) (retry-Tried d c w)
connected_or_not-Tried fd other_error d c w n h = rw (named c h) (retry-Tried d c w)

-- A run of `n` attempts for a name, one after the other, of which each but the last has failed.
pub data Attempts : ℕ → SocksConn → World → SocksConn → World → Type 0 where
  first : (c : SocksConn) (w : World) → Attempts 0 c w c w
  another :
      (n : ℕ) (fd : ℤ) (e : Errno) (d : Dial) (c c1 c' : SocksConn) (w w1 w' : World)
      → e ≢ no_error
      → c.req_parser.type ≡ ReqAtyp.fqdn
      → req_connect fd (some e) d c w ≡ some (req_connecting, c1, w1)
      → Attempts n c1 w1 c' w'
      → Attempts (suc n) c w c' w'

one_fewer :
    (fd : ℤ) (e : Errno) (d : Dial) (c c1 : SocksConn) (w w1 : World)
    → e ≢ no_error
    → c.req_parser.type ≡ ReqAtyp.fqdn
    → req_connect fd (some e) d c w ≡ some (req_connecting, c1, w1)
    → suc (length c1.curr_addr) ≡ length c.curr_addr
unfolding req_connect
one_fewer fd e d c c1 w w1 n h q =
    by_list c.curr_addr (subst (λ z. Tried c.curr_addr z) q (connected_or_not-Tried fd e d c w n h))
  where
    by_list :
        (l : List AddrInfo)
        → Tried l (some (req_connecting, c1, w1))
        → suc (length c1.curr_addr) ≡ length l
    by_list [] t = absurd (t refl)
    by_list (a ∷ rest) t = ap suc t

-- Every failing attempt for a name that leads to another one uses up one of the addresses that the name
-- has: however the attempts fail, there are no more of them than addresses.
pub Attempts-bounded :
    (n : ℕ) (c c' : SocksConn) (w w' : World)
    → Attempts n c w c' w'
    → n + length c'.curr_addr ≡ length c.curr_addr
Attempts-bounded _ c _ w _ (first _ _) = omega arith
Attempts-bounded _ c c' w w' (another n fd e d _ c1 _ _ w1 _ k h q r) =
    omega (arith, one_fewer fd e d c c1 w w1 k h q, Attempts-bounded n c1 c' w1 w' r)
