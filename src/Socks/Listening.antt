-- ===== src/Socks/Listening.antt =====
-- A registered descriptor in src/socks5/socks5.c, and an answer of two bytes for it.
use tpe_socks.Prelude.{
  ℕ, ◌+◌, ◌-◌, ◌≤◌, ◌<◌, ◌≡◌, refl, ◌∙◌, ap, true, false, Option, some, List, [], ◌∷◌, ◌++◌, ◌>>=◌,
  arith, ltb, leb, ◌==◌, if◌then◌else◌, length,
}
use tpe_socks.Prelude.Int.{pos}
use tpe_socks.Buffer.{Buffer, buffer_write_ptr}
use tpe_socks.Buffer.Inv as Buf
use tpe_socks.Buffer.Refine.{contents}
use tpe_socks.Selector as Sel
use tpe_socks.Selector.Inv as Table
use tpe_socks.Selector.Highest.{slot}
use tpe_socks.Socks.Bytes.{Holds, put_lem}
use tpe_socks.Socks.Copy.Relaying.{slot-some}
use tpe_socks.Socks.Conn.{SocksState, SocksConn, World, op_write, set_interest}
use tpe_socks.Socks.Hello.{answer_two, answer_when_set}

-- The descriptor is registered, with an item.
pub record IsListening (w : World) (fd : ℕ) (x : Sel.Item) : Type 0 where
  pub table : Table.IsValid w.selector
  pub small : fd < Sel.items_max_size
  pub used : slot w.selector.fds fd ≡ some x

-- The descriptor waits for something else, and nothing else changed.
pub record IsTold (w : World) (fd : ℕ) (x : Sel.Item) (i : Sel.Interest) (w' : World) : Type 0 where
  pub listening : IsListening w' fd (record x { interest = i })
  pub leaves : Table.Leaves w.selector fd (some (record x { interest = i })) w'.selector
  pub server : w'.server ≡ w.server

answer : World → Option (Sel.Status × Sel.Selector) → Option (Sel.Status × World)
answer w z = z >>= λ (t, s). some (t, record w { selector = s })

pub set_interest-IsTold :
    (w : World) (fd : ℕ) (x : Sel.Item) (i : Sel.Interest)
    → IsListening w fd x
    → (w' : World) × (set_interest w (pos fd) i ≡ some (Sel.selector_success, w'))
      × IsTold w fd x i w'
unfolding set_interest answer
set_interest-IsTold w fd x i l =
    let (v, q, k) =
      Table.selector_set_interest_lem w.selector fd x i l.table l.small
        (slot-some w.selector.fds fd x l.used) l.used in
    (
      record w { selector = v },
      ap (answer w) q,
      record {
        listening = record { table = k.valid; small = l.small; used = k.slots fd ∙ own fd };
        leaves = k;
        server = refl;
      },
    )
  where
    own :
        (fd : ℕ)
        → (if fd == fd then some (record x { interest = i }) else slot w.selector.fds fd)
          ≡ some (record x { interest = i })
    own fd = ground arith

-- There is room for an answer of two bytes.
pub record HasRoom (b : Buffer) : Type 0 where
  pub valid : Buf.IsValid b
  pub room : b.write + 2 ≤ b.limit

-- The answer is queued for the client, which is waited for to be written.
pub answer_when_set_lem :
    (fd x y : ℕ) (item : Sel.Item) (next : SocksState) (c : SocksConn) (w : World)
    → IsListening w fd item
    → HasRoom c.write_buff
    → (b : Buffer) × (w' : World) × (answer_when_set (pos fd) x y next c w
        ≡ some (next, record c { write_buff = b }, w'))
      × Holds c.write_buff b (contents c.write_buff ++ x ∷ y ∷ [])
      × IsTold w fd item op_write w'
unfolding answer_when_set answer_two buffer_write_ptr
answer_when_set_lem fd x y item next c w l h =
    let (w', q, k) = set_interest-IsTold w fd item op_write l in
    let (b, p, o) = put_lem c.write_buff (x ∷ y ∷ []) h.valid h.room in
    let ok : leb c.write_buff.write c.write_buff.limit ≡ true = ground (arith, h.room) in
    let room : ltb (c.write_buff.limit - c.write_buff.write) 2 ≡ false = ground (arith, h.room) in
    (b, w', rw (q, ok, room, p) refl, o, k)

-- What `recv` puts behind the bytes that are there makes `message`.
pub record IsReceived (b : Buffer) (x : ℕ) (xs message : List ℕ) : Type 0 where
  pub valid : Buf.IsValid b
  pub fits : b.write + length (x ∷ xs) ≤ b.limit
  pub whole : contents b ++ x ∷ xs ≡ message
