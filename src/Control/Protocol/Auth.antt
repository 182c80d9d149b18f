-- ===== src/Control/Protocol/Auth.antt =====
-- The events that can reach a connection of src/controlProtocol/controlProtocol.c, and what they need of
-- the password.
use tpe_socks.Prelude.{
  ℕ, suc, ◌+◌, ◌≤◌, ◌<◌, ◌≡◌, ◌≢◌, refl, true, false, Option, none, some, List, [], ◌∷◌, arith,
  length, length-store_all, store_all, Bool-cases, inl, inr, leb, ltb,
}
use tpe_socks.Prelude.Int.{ℤ}
use tpe_socks.Buffer.{
  buffer_write_adv, buffer_can_read, buffer_can_write, buffer_read_ptr, buffer_write_ptr,
}
use tpe_socks.Control.Commands.{Server}
use tpe_socks.Control.Conn.{
  State, cp_hello, cp_auth, cp_execute, cp_ok, cp_error, op_read, op_write, Conn,
  new_control_prot_conn, put, hello_write, auth_write,
}
use tpe_socks.Control.Protocol.{
  Env, Outcome, open_conn, freed_conn, on_write_ready, on_read_ready, with_server, after_read,
  flush, receive, cp_write_handler, cp_read_handler, free_control_prot_conn,
}
use tpe_socks.Control.Protocol.Inv.{
  Gate, Leaves, LeavesServer, new_control_prot_conn-Gate, hello_write-Gate, auth_write-Gate,
  auth_read-Gate, execute_read-Gate, execute_write-Gate, with_server-Gate,
}

-- The connections that events can lead to. The selector calls the handler of the interest that it was
-- told last; `recv` writes at most as many bytes as there is room for; between two events of a
-- connection others may have changed the server.
pub data Reach : Conn → Type 0 where
  accepted : Reach new_control_prot_conn
  writable :
      {c c' : Conn} (env : Env) (sent : ℤ) (s s' : Server)
      → Reach c
      → c.selected ≡ op_write
      → cp_write_handler env sent c s ≡ some (open_conn c', s')
      → Reach c'
  readable :
      {c c' : Conn} (received : List ℕ) (s s' : Server)
      → Reach c
      → c.selected ≡ op_read
      → c.read_buffer.write + length received ≤ c.read_buffer.limit
      → cp_read_handler received c s ≡ some (open_conn c', s')
      → Reach c'

on_write_ready-Gate :
    (t : State) (env : Env) (c : Conn) (s : Server)
    → Gate c
    → c.stm ≡ t
    → c.selected ≡ op_write
    → LeavesServer (on_write_ready t env c s)
unfolding on_write_ready
on_write_ready-Gate cp_hello env c s g e w =
    with_server-Gate s (hello_write c) (hello_write-Gate c g e)
on_write_ready-Gate cp_auth env c s g e w =
    with_server-Gate s (auth_write c) (auth_write-Gate c g e w)
on_write_ready-Gate cp_execute env c s g e w = execute_write-Gate env c s g e
on_write_ready-Gate cp_ok env c s g e w = tt
on_write_ready-Gate cp_error env c s g e w = tt

on_read_ready-Gate :
    (t : State) (c : Conn)
    → Gate c
    → c.stm ≡ t
    → c.selected ≡ op_read
    → c.read_buffer.read < c.read_buffer.write
    → Leaves (on_read_ready t c)
unfolding on_read_ready
on_read_ready-Gate cp_hello c g e r n = tt
on_read_ready-Gate cp_auth c g e r n = auth_read-Gate c g e r
on_read_ready-Gate cp_execute c g e r n = execute_read-Gate c g e n
on_read_ready-Gate cp_ok c g e r n = tt
on_read_ready-Gate cp_error c g e r n = tt

-- A connection that a handler leaves open keeps the gate.
abbrev pub Keeps : Option (Outcome × Server) → Type 0
Keeps none = Unit
Keeps (some (freed_conn, s)) = Unit
Keeps (some (open_conn c, s)) = Gate c

flush-Gate : (sent : ℤ) (o : Option (State × Conn × Server)) → LeavesServer o → Keeps (flush sent o)
unfolding flush buffer_can_read buffer_read_ptr free_control_prot_conn
flush-Gate sent none g = tt
flush-Gate sent (some (t, c, s)) g = ground arith

cp_write_handler-Gate :
    (env : Env) (sent : ℤ) (c : Conn) (s : Server)
    → Gate c
    → c.selected ≡ op_write
    → Keeps (cp_write_handler env sent c s)
unfolding cp_write_handler
cp_write_handler-Gate env sent c s g w =
    flush-Gate sent (on_write_ready c.stm env c s) (on_write_ready-Gate c.stm env c s g refl w)

after_read-Gate : (s : Server) (o : Option (State × Conn)) → Leaves o → Keeps (after_read s o)
unfolding after_read
after_read-Gate s none g = tt
after_read-Gate s (some (t, c)) g = g

-- A full buffer has something to parse, and so has one that was just filled.
read_full-Gate :
    (c : Conn) (s : Server)
    → Gate c
    → c.selected ≡ op_read
    → c.read_buffer.read < c.read_buffer.write
    → Keeps (after_read s (on_read_ready c.stm c))
read_full-Gate c s g r n =
    after_read-Gate s (on_read_ready c.stm c) (on_read_ready-Gate c.stm c g refl r n)

le-leb : (a b : ℕ) → a ≤ b → leb a b ≡ true
le-leb a b h = ground arith

filled : Conn → List ℕ → Conn
filled c ys = record c {
  read_buffer = record (c.read_buffer) {
    bytes = store_all c.read_buffer.bytes c.read_buffer.write ys;
    write = c.read_buffer.write + length ys;
  };
}

filled-Gate :
    (c : Conn) (ys : List ℕ)
    → Gate c
    → 0 < length ys
    → c.read_buffer.write + length ys ≤ c.read_buffer.limit
    → Gate (filled c ys)
unfolding filled
filled-Gate c ys g n h = ground (arith, length-store_all c.read_buffer.bytes c.read_buffer.write ys)

receive-Gate :
    (received : List ℕ) (c : Conn) (s : Server)
    → Gate c
    → c.selected ≡ op_read
    → c.read_buffer.write + length received ≤ c.read_buffer.limit
    → Keeps (receive received c s)
unfolding receive put buffer_write_adv free_control_prot_conn filled
receive-Gate [] c s g r h = tt
receive-Gate (x ∷ xs) c s g r h =
    rw (le-leb (c.read_buffer.write + suc (length xs)) c.read_buffer.limit h) (
      read_full-Gate (filled c (x ∷ xs)) s (filled-Gate c (x ∷ xs) g (omega arith) h) r
        (ground (arith, g.buffer_valid.ordered)))

cp_read_handler-Gate :
    (received : List ℕ) (c : Conn) (s : Server)
    → Gate c
    → c.selected ≡ op_read
    → c.read_buffer.write + length received ≤ c.read_buffer.limit
    → Keeps (cp_read_handler received c s)
unfolding cp_read_handler buffer_can_write buffer_write_ptr
cp_read_handler-Gate received c s g r h =
    elim (Bool-cases (ltb c.read_buffer.write c.read_buffer.limit)) [
      | inr full ↦ rw full (read_full-Gate c s g r (ground arith))
      | inl room ↦
          rw (room, le-leb c.read_buffer.write c.read_buffer.limit g.buffer_valid.within)
            (receive-Gate received c s g r h)
    ]

-- Every connection that events lead to has the gate's invariant.
pub Reach-Gate : {c : Conn} → Reach c → Gate c
Reach-Gate accepted = new_control_prot_conn-Gate
Reach-Gate (writable {c} env sent s s' r w e) =
    let k : Keeps (cp_write_handler env sent c s) =
      cp_write_handler-Gate env sent c s (Reach-Gate r) w in
    rw e at k
Reach-Gate (readable {c} ys s s' r w h e) =
    let k : Keeps (cp_read_handler ys c s) = cp_read_handler-Gate ys c s (Reach-Gate r) w h in
    rw e at k

-- What a write event keeps of the server.
abbrev pub KeepsServer : Server → Option (Outcome × Server) → Type 0
KeepsServer s none = Unit
KeepsServer s (some (o, s')) = (s'.users ≡ s.users) × (s'.sniffer_on ≡ s.sniffer_on)

flush-KeepsServer :
    (sent : ℤ) (s : Server) (o : Option (State × Conn))
    → KeepsServer s (flush sent (with_server s o))
unfolding flush with_server free_control_prot_conn
flush-KeepsServer sent s none = tt
flush-KeepsServer sent s (some (t, c)) = ground arith

on_write_ready-KeepsServer :
    (t : State) (env : Env) (sent : ℤ) (c : Conn) (s : Server)
    → t ≢ cp_execute
    → KeepsServer s (flush sent (on_write_ready t env c s))
unfolding on_write_ready flush
on_write_ready-KeepsServer cp_hello env sent c s n = flush-KeepsServer sent s (hello_write c)
on_write_ready-KeepsServer cp_auth env sent c s n = flush-KeepsServer sent s (auth_write c)
on_write_ready-KeepsServer cp_execute env sent c s n = absurd (n refl)
on_write_ready-KeepsServer cp_ok env sent c s n = tt
on_write_ready-KeepsServer cp_error env sent c s n = tt

-- A connection that any events led to, and that has not given the administrator's password, is not in
-- the command state, and its write handler leaves the users and the sniffer's switch as they were.
pub cp_write_handler-Reach :
    {c : Conn} (env : Env) (sent : ℤ) (s s' : Server) (o : Outcome)
    → Reach c
    → c.valid_password ≡ false
    → cp_write_handler env sent c s ≡ some (o, s')
    → (c.stm ≢ cp_execute) × (s'.users ≡ s.users) × (s'.sniffer_on ≡ s.sniffer_on)
unfolding cp_write_handler
cp_write_handler-Reach {c} env sent s s' o r wrong e =
    let g = Reach-Gate r in
    let n : c.stm ≢ cp_execute = λ h. absurd (cc (g.execute_authed h)) in
    let k : KeepsServer s (cp_write_handler env sent c s) =
      on_write_ready-KeepsServer c.stm env sent c s n in
    (n, (rw e at k).0, (rw e at k).1)
