-- ===== src/Tests/Socks.antt =====
-- A connection in the copy phase, with the client at descriptor 1 and the origin at descriptor 2.
use tpe_socks.Prelude.{
  ℕ, ◌-◌, ◌≤◌, ◌<◌, ◌≡◌, refl, true, false, Option, none, some, List, [], ◌∷◌, ◌++◌, arith, ◌==◌,
  replicate, if◌then◌else◌,
}
use tpe_socks.Prelude.Int.{pos}
use tpe_socks.Buffer.{Buffer, buffer_can_read}
use tpe_socks.Buffer.Inv as Buf
use tpe_socks.Metrics.{start_metrics}
use tpe_socks.Control.Commands.{Server}
use tpe_socks.Users.{initial}
use tpe_socks.Selector as Sel
use tpe_socks.Selector.Inv as Table
use tpe_socks.Selector.Highest.{slot}
use tpe_socks.Sniffer.{Pop3Parser, Pop3State, pop3_parser_init}
use tpe_socks.Sniffer.Noise.{IsSafe}
use tpe_socks.Socks.Conn.{Side, cli, src, SocksConn, World, op_read, new_socks_conn}
use tpe_socks.Socks.Copy.{copy_on_arrival, write_buff_of}
use tpe_socks.Socks.Copy.Relaying.{Ends, IsRelaying}
use tpe_socks.Server.{Accepting, passive_socks_socket_handler, close_socks_conn}
use tpe_socks.Server.Close.{accepted_then_closed}
use tpe_socks.Socks.Copy.Wakeup.{IsAwake}
use tpe_socks.Socks.Copy.Watch.{IsConnected, copy_on_arrival-IsRelaying, arrived, with_parser}

abbrev pub item : ℕ → Sel.Item
item n = record {
  interest = op_read;
  handler = record { address = 1; has_close = true };
  attached = n;
}

abbrev pub table : Sel.Interest → Sel.Interest → Sel.Selector
table i j = record {
  fds =
      none
      ∷ some (record (item 7) { interest = i })
      ∷ some (record (item 7) { interest = j })
      ∷ none
      ∷ [];
  max_fd = 2;
  master_r = λ n. if n == 1 then i.op_read else if n == 2 then j.op_read else false;
  master_w = λ n. if n == 1 then i.op_write else if n == 2 then j.op_write else false;
}

pub table-IsValid : (i j : Sel.Interest) → Table.IsValid (table i j)
table-IsValid i j = record {
  highest_in = omega arith;
  highest = highest_in_table;
  reads = reads_in_table;
  writes = writes_in_table;
  bounded = omega arith;
}
  where
    highest_in_table : (n : ℕ) → Sel.is_used (slot (table i j).fds n) ≡ true → n ≤ 2
    highest_in_table ℕ.zero u = omega arith
    highest_in_table (ℕ.suc ℕ.zero) u = omega arith
    highest_in_table (ℕ.suc (ℕ.suc ℕ.zero)) u = omega arith
    highest_in_table (ℕ.suc (ℕ.suc (ℕ.suc ℕ.zero))) u = cc
    highest_in_table (ℕ.suc (ℕ.suc (ℕ.suc (ℕ.suc n)))) u = cc

    reads_in_table : (n : ℕ) → (table i j).master_r n ≡ Sel.wants_read (slot (table i j).fds n)
    reads_in_table ℕ.zero = ground arith
    reads_in_table (ℕ.suc ℕ.zero) = ground arith
    reads_in_table (ℕ.suc (ℕ.suc ℕ.zero)) = ground arith
    reads_in_table (ℕ.suc (ℕ.suc (ℕ.suc ℕ.zero))) = ground arith
    reads_in_table (ℕ.suc (ℕ.suc (ℕ.suc (ℕ.suc n)))) = ground arith

    writes_in_table : (n : ℕ) → (table i j).master_w n ≡ Sel.wants_write (slot (table i j).fds n)
    writes_in_table ℕ.zero = ground arith
    writes_in_table (ℕ.suc ℕ.zero) = ground arith
    writes_in_table (ℕ.suc (ℕ.suc ℕ.zero)) = ground arith
    writes_in_table (ℕ.suc (ℕ.suc (ℕ.suc ℕ.zero))) = ground arith
    writes_in_table (ℕ.suc (ℕ.suc (ℕ.suc (ℕ.suc n)))) = ground arith

abbrev pub server : Server
server = record { users = initial; metrics = start_metrics; sniffer_on = true }

abbrev pub world : World
world = record { server = server; selector = table op_read op_read; closed = []; shut = [] }

abbrev pub ends : Ends
ends = record {
  fd = λ s. elim s [ cli ↦ 1 | src ↦ 2 ];
  item = λ s. item 7;
  differ = λ h. absurd (omega arith);
  small = λ s. small_fd s;
}
  where
    small_fd : (s : Side) → (elim s [ cli ↦ 1 | src ↦ 2 ]) < 1024
    small_fd cli = omega arith
    small_fd src = omega arith

abbrev pub four : List ℕ → ℕ → Buffer
four xs n = record { bytes = xs ++ replicate (4 - n) 0; limit = 4; read = 0; write = n }

abbrev pub conn : SocksConn
conn = record (new_socks_conn 7 (replicate 2048 0) (replicate 2048 0)) {
  cli_socket = pos 1;
  src_socket = pos 2;
  read_buff = four [] 0;
  write_buff = four [] 0;
  pop3_parser = none;
}

abbrev fresh : Pop3Parser
fresh = record {
  state = Pop3State.user_cmd;
  user_name = replicate 40 0;
  password = replicate 40 0;
  read_ptr = 0;
  write_ptr = 0;
  user_done = false;
}

nothing_to_read : buffer_can_read (four [] 0) ≡ false
unfolding buffer_can_read
nothing_to_read = refl

fresh-IsSafe : IsSafe (pop3_parser_init fresh)
unfolding pop3_parser_init
fresh-IsSafe = ground arith

conn-IsConnected : IsConnected ends conn world
conn-IsConnected = record {
  table = table-IsValid op_read op_read;
  sockets = (refl, refl);
  read_only = read_only;
  buffers = buffers;
  empty = empty;
  parser = refl;
}
  where
    read_only :
        (s : Side)
        → slot world.selector.fds (ends.fd s) ≡ some (record (ends.item s) { interest = op_read })
    read_only cli = refl
    read_only src = refl

    buffers : (s : Side) → Buf.IsValid (write_buff_of s conn)
    buffers cli = ground arith
    buffers src = ground arith

    empty : (s : Side) → buffer_can_read (write_buff_of s conn) ≡ false
    empty cli = nothing_to_read
    empty src = nothing_to_read

enter_copy :
    (c' : SocksConn) × (copy_on_arrival (some fresh) true conn ≡ some c')
    × IsRelaying ends c' world
    × IsAwake c'
enter_copy = copy_on_arrival-IsRelaying ends conn world fresh true conn-IsConnected fresh-IsSafe

absent : (p : Pop3Parser) → none ≡ some p → IsSafe p
absent p h = absurd cc

-- The connection in the copy phase, with the sniffer off.
abbrev pub running : SocksConn
running = with_parser conn none

pub running_lem : IsRelaying ends running world × IsAwake running
running_lem = arrived ends conn world none conn-IsConnected absent

abbrev accepting : Option ℕ → Accepting
accepting fd = record {
  accept = fd;
  nio = true;
  self = 7;
  aux_read_buff = replicate 2048 0;
  aux_write_buff = replicate 2048 0;
  alloc = true;
}

accept_three :
    (c : SocksConn) × (w1 : World) × (w2 : World) × (passive_socks_socket_handler
        (accepting (some 3))
        world
      ≡ some (some c, w1))
    × (close_socks_conn c w1 ≡ some w2)
    × ((i : ℕ) → slot w2.selector.fds i ≡ (if i == 0 then none else slot world.selector.fds i))
    × (w2.closed ≡ [] ++ pos 0 ∷ pos 3 ∷ [])
accept_three =
    accepted_then_closed (accepting (some 3)) world 3 refl refl (table-IsValid op_read op_read) refl
      (omega arith) (omega arith)
