-- ===== src/Socks/Copy.antt =====
-- The copy phase of src/socks5/socks5.c: `copy_on_arrival`, `copy_read` and `copy_write`.
--
-- The pointers of a `copy_model_t` are functions of its side. The status of `selector_set_interest` is
-- ignored, as it is in the source, and `again` is whether `errno` is EAGAIN or EWOULDBLOCK.
pub mod Sides
pub mod Relaying
pub mod Steps
pub mod Ends
pub mod Fifo
pub mod Reads
pub mod Runs
pub mod Watch
pub mod Ending
pub mod Wakeup
use tpe_socks.Prelude.{
  ℕ, ◌+◌, ◌*◌, Bool, true, false, not, Option, none, some, List, [], ◌∷◌, ◌++◌, ◌>>=◌,
  if◌then◌else◌, ◌==◌, ◌&&◌, ◌||◌, get_or,
}
use tpe_socks.Prelude.Int.{ℤ, pos, negsuc}
use tpe_socks.Buffer.{Buffer, buffer_can_read, buffer_can_write}
use tpe_socks.Metrics.{add_bytes_transferred}
use tpe_socks.Selector as Sel
use tpe_socks.Sniffer.{Pop3Parser, pop3_parse, pop3_parser_init}
use tpe_socks.Socks.Conn.{
  SocksState, copying, failed, finished, CopyModel, Side, cli, src, SocksConn, World, Next, Recv,
  Send, op_read, op_write, check_buff_and_receive, check_buff_and_send, set_interest,
}

-- `OP_READ | OP_WRITE`.
abbrev pub op_both : Sel.Interest
op_both = record { op_read = true; op_write = true }

-- `i & j` and `i | j`.
abbrev pub meet : Sel.Interest → Sel.Interest → Sel.Interest
meet i j = record { op_read = i.op_read && j.op_read; op_write = i.op_write && j.op_write }

abbrev pub join : Sel.Interest → Sel.Interest → Sel.Interest
join i j = record { op_read = i.op_read || j.op_read; op_write = i.op_write || j.op_write }

-- The side of `copy->aux`.
abbrev pub aux : Side → Side
aux cli = src
aux src = cli

abbrev pub copy_of : Side → SocksConn → CopyModel
copy_of cli c = c.cli_copy
copy_of src c = c.src_copy

abbrev pub with_copy : Side → CopyModel → SocksConn → SocksConn
with_copy cli m c = record c { cli_copy = m }
with_copy src m c = record c { src_copy = m }

-- `copy->write_buff`, which the bytes of this side are received in.
abbrev pub write_buff_of : Side → SocksConn → Buffer
write_buff_of cli c = c.write_buff
write_buff_of src c = c.read_buff

abbrev pub with_write_buff : Side → Buffer → SocksConn → SocksConn
with_write_buff cli b c = record c { write_buff = b }
with_write_buff src b c = record c { read_buff = b }

-- `copy->read_buff`, which the bytes for this side are sent from.
abbrev pub read_buff_of : Side → SocksConn → Buffer
read_buff_of cli c = c.read_buff
read_buff_of src c = c.write_buff

abbrev pub with_read_buff : Side → Buffer → SocksConn → SocksConn
with_read_buff cli b c = record c { read_buff = b }
with_read_buff src b c = record c { write_buff = b }

unfoldable pub init_copy_structure : SocksConn → Side → CopyModel
init_copy_structure c cli = record {
  fd = c.cli_socket;
  interests = op_read;
  int_connection = op_both;
}
init_copy_structure c src = record {
  fd = c.src_socket;
  interests = op_read;
  int_connection = op_both;
}

-- `fresh` is the block that `malloc` gives for the parser of the sniffer, which is written to unchecked.
pub copy_on_arrival : Option Pop3Parser → Bool → SocksConn → Option SocksConn
unfolding init_copy_structure pop3_parser_init
copy_on_arrival fresh sniffer_on c =
    let c' = record c {
      cli_copy = init_copy_structure c cli;
      src_copy = init_copy_structure c src;
    } in
    if sniffer_on
    then (fresh >>= λ p. some (record c' { pop3_parser = some (pop3_parser_init p) }))
    else some c'

abbrev same_fd : ℤ → ℤ → Bool
same_fd (pos m) (pos n) = m == n
same_fd (negsuc m) (negsuc n) = m == n
same_fd _ _ = false

unfoldable pub get_copy : ℤ → SocksConn → Option Side
get_copy fd c =
    if same_fd fd c.cli_socket then some cli else if same_fd fd c.src_socket then some src else none

-- A copy with its new interests, and the selector told of them for `fd`.
unfoldable pub change_copy : ℤ → Side → CopyModel → SocksConn → World → Option (SocksConn × World)
unfolding set_interest
change_copy fd s m c w = set_interest w fd m.interests >>= λ (_, w'). some (with_copy s m c, w')

-- `shutdown`, for reading or for writing.
pub shutdown : ℤ → Bool → World → World
shutdown fd rd w = record w { shut = w.shut ++ (fd, rd) ∷ [] }

abbrev pub pop3_port : ℕ
pop3_port = 110

unfoldable pub sniff_by : Option Pop3Parser → Side → SocksConn → World → Next
sniff_by none s c w = some (copying, c, w)
sniff_by (some p) s c w =
    let port = get_or c.req_parser.port 0 0 * 256 + get_or c.req_parser.port 1 0 in
    if port == pop3_port && w.server.sniffer_on
    then (pop3_parse p (write_buff_of s c) >>= λ (_, p').
        some (copying, record c { pop3_parser = some p' }, w))
    else some (copying, c, w)

-- What was received is looked through for credentials.
unfoldable pub sniff : Side → SocksConn → World → Next
sniff s c w = sniff_by c.pop3_parser s c w

-- The other side has something to be sent.
unfoldable pub copy_received : Side → SocksConn → World → Next
copy_received s c w =
    let a = copy_of (aux s) c in
    change_copy a.fd (aux s)
      (record a { interests = meet (join a.interests op_write) a.int_connection }) c w
    >>= λ (c', w'). sniff s c' w'

abbrev pub is_noop : Sel.Interest → Bool
is_noop i = not (i.op_read || i.op_write)

-- Both connections have nothing left to do.
pub after_end : SocksConn → SocksState
after_end c =
    if is_noop c.cli_copy.int_connection && is_noop c.src_copy.int_connection
    then finished
    else copying

-- The side will send no more.
pub copy_ended : Side → SocksConn → World → Next
copy_ended s c w =
    let m = copy_of s c in
    let int = meet m.int_connection op_write in
    change_copy m.fd s (record m { interests = meet m.interests int; int_connection = int }) c w
    >>= λ (c', w').
        let w'' = shutdown m.fd true w' in
        let a = copy_of (aux s) c' in
        let int_a = meet a.int_connection op_read in
        let c'' = with_copy (aux s) (record a { int_connection = int_a }) c' in
        let at_once =
          (change_copy a.fd (aux s)
              (record a { interests = meet a.interests int_a; int_connection = int_a }) c'' w''
            >>= λ (d, v). some (after_end d, d, shutdown a.fd false v)) in
        if buffer_can_read (write_buff_of s c'') then some (after_end c'', c'', w'') else at_once

-- No room: the side is not read for now.
pub copy_full : ℤ → Side → SocksConn → World → Next
copy_full fd s c w =
    let m = copy_of s c in
    change_copy fd s (record m { interests = meet (meet m.interests op_write) m.int_connection }) c
      w
    >>= λ (c', w'). some (copying, c', w')

unfoldable pub copy_from : Side → Recv → Bool → SocksConn → World → Next
copy_from s r again c w = check_buff_and_receive r (write_buff_of s c) >>= λ (n, b).
    let c' = with_write_buff s b c in
    let ended = copy_ended s c' w in
    elim n [ none ↦ if again then some (copying, c', w) else ended | some _ ↦ copy_received s c' w ]

unfoldable pub copy_read_by : Option Side → ℤ → Recv → Bool → SocksConn → World → Next
copy_read_by none fd r again c w = some (failed, c, w)
copy_read_by (some s) fd r again c w =
    let from = copy_from s r again c w in
    let full = copy_full fd s c w in if buffer_can_write (write_buff_of s c) then from else full

unfoldable pub copy_read : ℤ → Recv → Bool → SocksConn → World → Next
copy_read fd r again c w = copy_read_by (get_copy fd c) fd r again c w

-- Nothing is left to be sent to the side.
pub copy_drained : Side → SocksConn → World → Next
copy_drained s c w =
    let m = copy_of s c in
    change_copy m.fd s (record m { interests = meet (meet m.interests op_read) m.int_connection }) c
      w
    >>= λ (c', w').
        some (copying, c', if m.int_connection.op_write then w' else shutdown m.fd false w')

-- There is room for the bytes of the other side.
pub copy_sent : Side → ℕ → SocksConn → World → Next
copy_sent s n c w =
    let counted = record (w.server) { metrics = add_bytes_transferred w.server.metrics (pos n) } in
    let a = copy_of (aux s) c in
    change_copy a.fd (aux s)
      (record a { interests = meet (join a.interests op_read) a.int_connection }) c
      (record w { server = counted })
    >>= λ (c', w').
        let drained = copy_drained s c' w' in
        if buffer_can_read (read_buff_of s c') then some (copying, c', w') else drained

pub copy_to : Side → Send → Bool → SocksConn → World → Next
copy_to s r again c w = check_buff_and_send r (read_buff_of s c) >>= λ (n, b).
    let c' = with_read_buff s b c in
    elim n [ none ↦ some (if again then copying else failed, c', w) | some k ↦ copy_sent s k c' w ]

pub copy_write_by : Option Side → Send → Bool → SocksConn → World → Next
copy_write_by none r again c w = some (failed, c, w)
copy_write_by (some s) r again c w = copy_to s r again c w

pub copy_write : ℤ → Send → Bool → SocksConn → World → Next
copy_write fd r again c w = copy_write_by (get_copy fd c) r again c w
