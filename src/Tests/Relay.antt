-- ===== src/Tests/Relay.antt =====
-- Events of a connection in the copy phase.
use tpe_socks.Prelude.{◌≡◌, refl, true, false, Option, none, some, [], ◌∷◌, ◌++◌, arith}
use tpe_socks.Prelude.Int.{pos}
use tpe_socks.Buffer.{buffer_can_write, buffer_write_ptr}
use tpe_socks.Buffer.Refine.{contents}
use tpe_socks.Control.Conn.{put}
use tpe_socks.Socks.Conn.{
  check_buff_and_receive, set_interest, SocksState, copying, finished, Side, cli, src, SocksConn,
  World, received, sent, op_read, op_write,
}
use tpe_socks.Socks.Copy.{
  copy_read, copy_read_by, get_copy, copy_from, copy_received, change_copy, sniff, sniff_by,
  init_copy_structure, copy_of, with_copy, write_buff_of, read_buff_of,
}
use tpe_socks.Socks.Copy.Relaying.{IsRelaying, with_copy-IsRelaying}
use tpe_socks.Socks.Copy.Ending.{relay_strands, relay_drops}
use tpe_socks.Socks.Request.{started}
use tpe_socks.Socks.Machine.{Answers, socks_conn_read}
use tpe_socks.Socks.Machine.Moves.{settle, socks_conn_read_lem}
use tpe_socks.Socks.Copy.Fifo.{Event, readable, writable, relay, Moves}
use tpe_socks.Socks.Copy.Runs.{start, event, relay_total, Relays-fifo}
use tpe_socks.Socks.Copy.Watch.{Watches, relay-IsWatched}
use tpe_socks.Socks.Copy.Runs.{moved_any}
use tpe_socks.Tests.Socks.{world, ends, conn, running, running_lem}

abbrev two_bytes : Event
two_bytes = readable cli (received (65 ∷ 66 ∷ [])) false

relay_two :
    (t : SocksState) × (c' : SocksConn) × (w' : World) × (relay two_bytes running world
      ≡ some (t, c', w'))
    × Moves ends two_bytes running c' w'
relay_two = relay_total ends two_bytes running world running_lem.0 (omega arith)

-- What an event leads to.
abbrev after : Option (SocksState × SocksConn × World) → SocksConn × World
after none = (conn, world)
after (some (t, c, w)) = (c, w)

abbrev received_two : SocksConn × World
received_two = after (relay two_bytes running world)

two_received : relay two_bytes running world ≡ some (copying, received_two.0, received_two.1)
unfolding relay copy_read copy_read_by get_copy buffer_can_write copy_from check_buff_and_receive
    buffer_write_ptr put copy_received change_copy set_interest sniff sniff_by init_copy_structure
two_received = refl

received_two-IsRelaying : IsRelaying ends received_two.0 received_two.1
received_two-IsRelaying =
    (moved_any ends two_bytes running received_two.0 world received_two.1 copying running_lem.0
      (omega arith) two_received).relaying

relay_two_fifo :
    IsRelaying ends received_two.0 received_two.1
    × ([] ++ contents (read_buff_of src received_two.0)
        ≡ contents (read_buff_of src running) ++ 65 ∷ 66 ∷ [])
unfolding buffer_can_write
relay_two_fifo =
    Relays-fifo ends src running received_two.0 world received_two.1 (65 ∷ 66 ∷ []) [] running_lem.0
      (event two_bytes running received_two.0 received_two.0 world received_two.1 received_two.1 []
        [] (omega arith) two_received (start received_two.0 received_two.1))

two-IsWatched : Watches ends two_bytes running world
two-IsWatched =
    relay-IsWatched ends two_bytes running world running_lem.0 running_lem.1 (omega arith) refl

-- The origin has ended its stream: the client may only be read.
abbrev half_open : SocksConn
half_open =
    with_copy cli (record (copy_of cli received_two.0) { int_connection = op_read }) received_two.0

half_open-IsRelaying : IsRelaying ends half_open received_two.1
half_open-IsRelaying =
    with_copy-IsRelaying ends cli (record (copy_of cli received_two.0) { int_connection = op_read })
      received_two.0 received_two.1 received_two-IsRelaying (received_two-IsRelaying.named cli) refl

strand_client :
    (c' : SocksConn) × (w' : World) × (relay (writable src (sent 2) false) half_open received_two.1
      ≡ some (copying, c', w'))
    × (w'.selector.master_w 1 ≡ false)
    × (contents (read_buff_of cli c') ≡ contents (read_buff_of cli half_open))
unfolding relay copy_read copy_read_by get_copy buffer_can_write copy_from check_buff_and_receive
    buffer_write_ptr put copy_received change_copy set_interest sniff sniff_by init_copy_structure
strand_client =
    relay_strands ends src 2 false half_open received_two.1 half_open-IsRelaying (omega arith) refl

-- The client has ended its stream as well, and its two bytes are still pending for the origin.
abbrev both_ended : SocksConn
both_ended =
    with_copy src (record (copy_of src received_two.0) { int_connection = op_read })
      (with_copy cli (record (copy_of cli received_two.0) { int_connection = op_write })
        received_two.0)

both_ended-IsRelaying : IsRelaying ends both_ended received_two.1
both_ended-IsRelaying =
    with_copy-IsRelaying ends src (record (copy_of src received_two.0) { int_connection = op_read })
      (with_copy cli (record (copy_of cli received_two.0) { int_connection = op_write })
        received_two.0)
      received_two.1
      (with_copy-IsRelaying ends cli
        (record (copy_of cli received_two.0) { int_connection = op_write }) received_two.0
        received_two.1 received_two-IsRelaying (received_two-IsRelaying.named cli) refl)
      (received_two-IsRelaying.named src) refl

drop_two :
    (c' : SocksConn) × (w' : World) × (relay
        (readable src (received []) false)
        both_ended
        received_two.1
      ≡ some (finished, c', w'))
    × ((t : Side) → contents (write_buff_of t c') ≡ contents (write_buff_of t both_ended))
unfolding relay copy_read copy_read_by get_copy buffer_can_write copy_from check_buff_and_receive
    buffer_write_ptr put copy_received change_copy set_interest sniff sniff_by init_copy_structure
drop_two = relay_drops ends src both_ended received_two.1 both_ended-IsRelaying refl refl refl

-- An event as the selector reports it.
abbrev answers : Answers
answers = record {
  fd = pos 1;
  recv = received (65 ∷ 66 ∷ []);
  send = sent 0;
  again = false;
  dial = record { socket = λ f. none; connect = λ a. started; alloc = true };
  thread = record { alloc = true; created = true };
  optval = none;
  fresh = none;
}

abbrev in_copy : SocksConn
in_copy = record running { current = some 8 }

abbrev read_two : SocksConn × World
read_two = after (copy_read (pos 1) (received (65 ∷ 66 ∷ [])) false in_copy world)

copy_two :
    copy_read (pos 1) (received (65 ∷ 66 ∷ [])) false in_copy world
    ≡ some (copying, read_two.0, read_two.1)
unfolding copy_read copy_read_by get_copy buffer_can_write copy_from check_buff_and_receive
    buffer_write_ptr put copy_received change_copy set_interest sniff sniff_by init_copy_structure
copy_two = refl

run_two :
    socks_conn_read answers in_copy world ≡ settle answers copying copying read_two.0 read_two.1
run_two =
    socks_conn_read_lem answers copying copying (copy_read (pos 1) (received (65 ∷ 66 ∷ [])) false)
      in_copy read_two.0 world read_two.1 refl refl copy_two
