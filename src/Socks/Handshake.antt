-- ===== src/Socks/Handshake.antt =====
-- The greeting of src/socks5/socks5.c on whole messages.
use tpe_socks.Prelude.{ℕ, ◌≡◌, refl, ◌∙◌, ap, false, some, List, [], ◌∷◌, ◌++◌, arith, length, drop}
use tpe_socks.Prelude.Int.{pos}
use tpe_socks.Buffer.{Buffer, buffer_can_read}
use tpe_socks.Buffer.Inv as Buf
use tpe_socks.Buffer.Refine.{contents, length-contents}
use tpe_socks.Selector as Sel
use tpe_socks.Users.{needs_auth}
use tpe_socks.Parsers.Conn.{ConnParser, conn_done}
use tpe_socks.Parsers.Conn.Select.{preferred, conn_parse_full-greeting}
use tpe_socks.Socks.Bytes.{receive_lem, send_lem}
use tpe_socks.Socks.Conn.{
  SocksState, hello_writing, SocksConn, World, received, sent, op_read, op_write,
}
use tpe_socks.Socks.Hello.{greeted, hello_read, hello_write, after_hello, write_then}
use tpe_socks.Socks.Listening.{
  IsListening, IsTold, HasRoom, IsReceived, set_interest-IsTold, answer_when_set_lem,
}

-- A whole greeting that arrives is answered by version 5 and the preferred method among those that are
-- offered, which is queued for the client; the client is waited for to be written, and what stands
-- behind the greeting stays to be read.
pub hello_read_lem :
    (fd x : ℕ) (xs methods rest : List ℕ) (item : Sel.Item) (c : SocksConn) (w : World)
    → IsListening w fd item
    → HasRoom c.write_buff
    → IsReceived c.read_buff x xs (5 ∷ length methods ∷ methods ++ rest)
    → (c' : SocksConn) × (w' : World) × (hello_read (pos fd) (received (x ∷ xs)) c w
        ≡ some (hello_writing, c', w'))
      × (c'.connect_parser.auth ≡ preferred (needs_auth w.server.users) methods)
      × (contents c'.write_buff
          ≡ contents c.write_buff ++ 5 ∷ preferred (needs_auth w.server.users) methods ∷ [])
      × (contents c'.read_buff ≡ rest)
      × IsTold w fd item op_write w'
unfolding hello_read greeted
hello_read_lem fd x xs methods rest item c w l h i =
    let (b, q, o) = receive_lem c.read_buff x xs i.valid i.fits in
    let (b', p, v, e) =
      conn_parse_full-greeting (needs_auth w.server.users) methods rest b o.valid
        (o.queue ∙ i.whole) in
    let parser : ConnParser = record {
      auth = preferred (needs_auth w.server.users) methods;
      state = conn_done;
      to_parse = 0;
    } in
    let (b2, w', r, k, t) =
      answer_when_set_lem fd 5 (preferred (needs_auth w.server.users) methods) item hello_writing
        (record c { connect_parser = parser; read_buff = b' }) w l h in
    (
      record c { connect_parser = parser; read_buff = b'; write_buff = b2 },
      w',
      rw (q, p, r) refl,
      refl,
      k.queue,
      e,
      t,
    )

drop_all : (xs : List ℕ) → drop (length xs) xs ≡ []
drop_all [] = refl
drop_all (x ∷ xs) = drop_all xs

nothing : (b : Buffer) → contents b ≡ [] → buffer_can_read b ≡ false
unfolding buffer_can_read
nothing b e = let k : length (contents b) ≡ 0 = ap length e in ground (arith, length-contents b)

-- Once all that is queued for the client has been sent, `next` follows, and the client is waited for to be
-- read.
pub write_then_lem :
    (fd : ℕ) (stay next : SocksState) (item : Sel.Item) (c : SocksConn) (w : World)
    → IsListening w fd item
    → Buf.IsValid c.write_buff
    → (c' : SocksConn) × (w' : World) × (write_then
          (pos fd)
          (sent (length (contents c.write_buff)))
          stay
          next
          c
          w
        ≡ some (next, c', w'))
      × (contents c'.write_buff ≡ [])
      × IsTold w fd item op_read w'
unfolding write_then
write_then_lem fd stay next item c w l v =
    let n = length (contents c.write_buff) in
    let (b, q, o) =
      send_lem c.write_buff n v (omega (arith, length-contents c.write_buff, v.ordered)) in
    let e : contents b ≡ [] = o.queue ∙ drop_all (contents c.write_buff) in
    let (w', r, t) = set_interest-IsTold w fd item op_read l in
    (record c { write_buff = b }, w', rw (q, nothing b e, r) refl, e, t)

-- When the answer to the greeting has been sent the next state is the one of the method that was
-- selected, and the client is waited for to be read.
hello_write_lem :
    (fd : ℕ) (item : Sel.Item) (c : SocksConn) (w : World)
    → IsListening w fd item
    → Buf.IsValid c.write_buff
    → (c' : SocksConn) × (w' : World) × (hello_write
          (pos fd)
          (sent (length (contents c.write_buff)))
          c
          w
        ≡ some (after_hello c.connect_parser.auth, c', w'))
      × (contents c'.write_buff ≡ [])
      × IsTold w fd item op_read w'
unfolding hello_write
hello_write_lem fd item c w l v =
    write_then_lem fd hello_writing (after_hello c.connect_parser.auth) item c w l v
