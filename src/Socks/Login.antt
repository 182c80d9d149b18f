-- ===== src/Socks/Login.antt =====
-- The login of src/socks5/socks5.c on whole messages.
use tpe_socks.Prelude.{
  ℕ, ◌<◌, ◌≡◌, subst, ◌∙◌, ap, ap₂, some, List, [], ◌∷◌, ◌++◌, length, All, c_string,
}
use tpe_socks.Prelude.Int.{ℤ, pos, negsuc}
use tpe_socks.Buffer.{Buffer}
use tpe_socks.Buffer.Refine.{contents}
use tpe_socks.Selector as Sel
use tpe_socks.Selector.Highest.{slot}
use tpe_socks.Users.{process_authentication_request}
use tpe_socks.Parsers.Auth.{AuthParser, auth_done, max_len}
use tpe_socks.Parsers.Auth.Credentials.{auth_parse_full-credentials}
use tpe_socks.Socks.Bytes.{Holds, receive_lem}
use tpe_socks.Socks.Conn.{
  auth_writing, req_reading, SocksConn, World, Next, received, sent, op_read, op_write,
}
use tpe_socks.Socks.Hello.{answer_when_set, write_then}
use tpe_socks.Socks.Auth.{status_byte, log_in, authenticated, auth_read, auth_write}
use tpe_socks.Socks.Listening.{IsListening, HasRoom, IsReceived, answer_when_set_lem}
use tpe_socks.Socks.Handshake.{write_then_lem}

-- A name or a password of a message.
abbrev pub IsText : List ℕ → Type 0
IsText u = (0 < length u) × (length u < max_len) × All (λ c. 0 < c) u

answered : ℤ → ℤ → SocksConn → World → Next
answered fd r c w =
    answer_when_set fd 1 (status_byte r) auth_writing c
      (record w { server = record (w.server) { users = log_in r w.server.users c.auth_parser } })

authenticated_lem :
    (fd : ℤ) (c : SocksConn) (w : World) (a : AuthParser) (b : Buffer) (u p : List ℕ)
    → a.state ≡ auth_done
    → c_string a.username ≡ u
    → c_string a.password ≡ p
    → authenticated a.state fd (record c { auth_parser = a; read_buff = b }) w
      ≡ answered fd
          (process_authentication_request w.server.users u p)
          (record c { auth_parser = a; read_buff = b })
          w
unfolding authenticated answered
authenticated_lem fd c w a b u p h k l =
    ap (λ z. authenticated z fd (record c { auth_parser = a; read_buff = b }) w) h
    ∙ ap₂
        (λ y z.
          answered fd (process_authentication_request w.server.users y z)
            (record c { auth_parser = a; read_buff = b }) w)
        k l

-- A whole username and password message that arrives is answered by version 1 and the result of
-- `process_authentication_request` for the name and the password in it, as one byte; the next state is the
-- same for every result.
auth_read_lem :
    (fd x : ℕ) (xs u p rest : List ℕ) (item : Sel.Item) (c : SocksConn) (w : World)
    → IsListening w fd item
    → HasRoom c.write_buff
    → length c.auth_parser.username ≡ max_len
    → length c.auth_parser.password ≡ max_len
    → IsText u
    → IsText p
    → IsReceived c.read_buff x xs (1 ∷ length u ∷ (u ++ length p ∷ (p ++ rest)))
    → (c' : SocksConn) × (w' : World) × (auth_read (pos fd) (received (x ∷ xs)) c w
        ≡ some (auth_writing, c', w'))
      × Holds c.write_buff c'.write_buff (
          contents c.write_buff
          ++ 1 ∷ status_byte (process_authentication_request w.server.users u p) ∷ [])
      × (contents c'.read_buff ≡ rest)
      × (slot w'.selector.fds fd ≡ some (record item { interest = op_write }))
      × IsListening w' fd (record item { interest = op_write })
unfolding auth_read authenticated answered
auth_read_lem fd x xs u p rest item c w l h lu lp hu hp i =
    let (b, q, o) = receive_lem c.read_buff x xs i.valid i.fits in
    let (a, b', r, st, eu, ep, v, e) =
      auth_parse_full-credentials c.auth_parser u p rest b lu lp hu hp o.valid
        (o.queue ∙ i.whole) in
    let c1 = record c { auth_parser = a; read_buff = b' } in
    let status = process_authentication_request w.server.users u p in
    let w1 = record w { server = record (w.server) { users = log_in status w.server.users a } } in
    let (b2, w', g, k, t) =
      answer_when_set_lem fd 1 (status_byte status) item auth_writing c1 w1
        (record { table = l.table; small = l.small; used = l.used }) h in
    (
      record c1 { write_buff = b2 },
      w',
      rw (q, r) (authenticated_lem (pos fd) c w a b' u p st eu ep ∙ g),
      k,
      e,
      t.listening.used,
      t.listening,
    )

-- A login that is refused does not end the connection: the refusal is sent, and then the client's request
-- is awaited as if the login had been accepted.
pub refused_login_goes_on :
    (fd x : ℕ) (xs u p rest : List ℕ) (item : Sel.Item) (c : SocksConn) (w : World)
    → IsListening w fd item
    → HasRoom c.write_buff
    → contents c.write_buff ≡ []
    → length c.auth_parser.username ≡ max_len
    → length c.auth_parser.password ≡ max_len
    → IsText u
    → IsText p
    → IsReceived c.read_buff x xs (1 ∷ length u ∷ (u ++ length p ∷ (p ++ rest)))
    → process_authentication_request w.server.users u p ≡ negsuc 0
    → (c1 : SocksConn) × (w1 : World) × (c2 : SocksConn) × (w2 : World) × (auth_read
          (pos fd)
          (received (x ∷ xs))
          c
          w
        ≡ some (auth_writing, c1, w1))
      × (contents c1.write_buff ≡ 1 ∷ 255 ∷ [])
      × (auth_write (pos fd) (sent 2) c1 w1 ≡ some (req_reading, c2, w2))
      × (slot w2.selector.fds fd ≡ some (record item { interest = op_read }))
unfolding auth_write
refused_login_goes_on fd x xs u p rest item c w l h z lu lp hu hp i bad =
    let (c1, w1, q, o, e, s, t) = auth_read_lem fd x xs u p rest item c w l h lu lp hu hp i in
    let queue : contents c1.write_buff ≡ 1 ∷ 255 ∷ [] =
      o.queue
      ∙ ap (λ k. k ++ 1 ∷ status_byte (process_authentication_request w.server.users u p) ∷ []) z
      ∙ ap (λ r. 1 ∷ status_byte r ∷ []) bad in
    let (c2, w2, q2, e2, t2) =
      write_then_lem fd auth_writing req_reading (record item { interest = op_write }) c1 w1 t
        o.valid in
    (
      c1,
      w1,
      c2,
      w2,
      q,
      queue,
      subst
          (λ k.
            write_then (pos fd) (sent (length k)) auth_writing req_reading c1 w1
            ≡ some (req_reading, c2, w2))
          queue q2,
      t2.listening.used,
    )
