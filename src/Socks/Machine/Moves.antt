-- ===== src/Socks/Machine/Moves.antt =====
-- What one event does to a connection of src/socks5/socks5.c, through the engine of src/stm.c.
use tpe_socks.Prelude.{
  ℕ, ◌≤◌, ◌≡◌, refl, ◌∙◌, ap, Option, some, none, ◌>>=◌, arith, ◌==◌, if◌then◌else◌, get_elem?,
  Bool-cases, inl, inr,
}
use tpe_socks.Stm.{
  StateDefinition, StateMachine, stm_init, called, handle, jump, handle_lem, jump_lem,
  stm_handler_read, stm_handler_write, stm_handler_block,
}
use tpe_socks.Socks.Conn.{
  SocksState, hello_reading, hello_writing, auth_reading, auth_writing, req_reading, req_writing,
  req_resolving, req_connecting, copying, failed, finished, SocksConn, World, Next,
}
use tpe_socks.Socks.Copy.{copy_on_arrival}
use tpe_socks.Server.{close_socks_conn}
use tpe_socks.Socks.Machine.{
  Answers, Key, number, numbered, on_read, on_write, on_block, arrival, callback, definition,
  states, socks_stm, check_state, socks_conn_read, socks_conn_write, socks_conn_block,
}
use tpe_socks.Socks.Machine as Machine

table_at : (a : Answers) (t : SocksState) → get_elem? (states a) (number t) ≡ some (definition a t)
table_at a hello_reading = refl
table_at a hello_writing = refl
table_at a auth_reading = refl
table_at a auth_writing = refl
table_at a req_reading = refl
table_at a req_writing = refl
table_at a req_resolving = refl
table_at a req_connecting = refl
table_at a copying = refl
table_at a failed = refl
table_at a finished = refl

number_bound : (t : SocksState) → number t ≤ 10
number_bound t = ground arith

-- The table of states is in the order that `stm_init` checks.
stm_init_lem :
    (a : Answers) (current : Option ℕ) → stm_init (socks_stm a current) ≡ some (socks_stm a none)
unfolding stm_init
stm_init_lem a current = refl

-- What becomes of a connection in state `t` whose handler returned `t'`.
pub settle :
    Answers → SocksState → SocksState → SocksConn → World → Option (Option SocksConn × World)
settle a t failed c w =
    close_socks_conn (record c { current = some (number failed) }) w >>= λ w'. some (none, w')
settle a t finished c w =
    close_socks_conn (record c { current = some (number finished) }) w >>= λ w'. some (none, w')
settle a copying copying c w = some (some (record c { current = some (number copying) }), w)
settle a _ copying c w = copy_on_arrival a.fresh w.server.sniffer_on c >>= λ c'.
    some (some (record c' { current = some (number copying) }), w)
settle a _ t' c w = some (some (record c { current = some (number t') }), w)

-- A jump of the engine, as `jump_lem` describes it.
jumped : Answers → SocksState → SocksState → Key → Option (StateMachine Key × Key)
jumped a t t' k =
    let stm = socks_stm a (some (number t)) in
    if number t == number t'
    then some (stm, k)
    else (called (definition a t).on_departure (number t) k >>= λ k1.
        called (definition a t').on_arrival (number t') k1 >>= λ k2.
        some (record stm { current = some (number t') }, k2))

after_jump : SocksState → Option (StateMachine Key × Key) → Option (Option SocksConn × World)
after_jump t' j = Machine.checked (j >>= λ (stm, k). some (number t', stm, k))

plain :
    (a : Answers) (t t' : SocksState) (c : SocksConn) (w : World)
    → arrival a t' ≡ none
    → after_jump t' (jumped a t t' (c, w))
      ≡ check_state (number t') (record c { current = some (number t') }) w
unfolding after_jump jumped Machine.checked called
plain a t t' c w h = elim (Bool-cases (number t == number t')) [
  | inl e ↦
      let same : number t ≡ number t' = ground arith in
      rw e (ap (λ n. check_state (number t') (record c { current = some n }) w) same)
  | inr e ↦ rw e (
      ap
        (λ (z : Option (ℕ → Key → Option Key)). Machine.checked (
          (called z (number t') (c, w) >>= λ k2. some (socks_stm a (some (number t')), k2))
          >>= λ (stm, k). some (number t', stm, k)))
        h)
]

-- The arrival in the copy phase, whatever it returns.
entered :
    (a : Answers) (o : Option SocksConn) (w : World)
    → Machine.checked (
        ((o >>= λ c'. some (c', w)) >>= λ k2. some (socks_stm a (some (number copying)), k2))
        >>= λ (stm, k). some (number copying, stm, k))
      ≡ (o >>= λ c'. some (some (record c' { current = some (number copying) }), w))
unfolding Machine.checked check_state
entered a none w = refl
entered a (some c) w = refl

to_copying :
    (a : Answers) (t : SocksState) (c : SocksConn) (w : World)
    → after_jump copying (jumped a t copying (c, w)) ≡ settle a t copying c w
unfolding after_jump jumped called settle check_state Machine.checked
to_copying a hello_reading c w = entered a (copy_on_arrival a.fresh w.server.sniffer_on c) w
to_copying a hello_writing c w = entered a (copy_on_arrival a.fresh w.server.sniffer_on c) w
to_copying a auth_reading c w = entered a (copy_on_arrival a.fresh w.server.sniffer_on c) w
to_copying a auth_writing c w = entered a (copy_on_arrival a.fresh w.server.sniffer_on c) w
to_copying a req_reading c w = entered a (copy_on_arrival a.fresh w.server.sniffer_on c) w
to_copying a req_writing c w = entered a (copy_on_arrival a.fresh w.server.sniffer_on c) w
to_copying a req_resolving c w = entered a (copy_on_arrival a.fresh w.server.sniffer_on c) w
to_copying a req_connecting c w = entered a (copy_on_arrival a.fresh w.server.sniffer_on c) w
to_copying a failed c w = entered a (copy_on_arrival a.fresh w.server.sniffer_on c) w
to_copying a finished c w = entered a (copy_on_arrival a.fresh w.server.sniffer_on c) w
to_copying a copying c w = refl

settled :
    (a : Answers) (t t' : SocksState) (c : SocksConn) (w : World)
    → after_jump t' (jumped a t t' (c, w)) ≡ settle a t t' c w
unfolding check_state settle
settled a t hello_reading c w = plain a t hello_reading c w refl
settled a t hello_writing c w = plain a t hello_writing c w refl
settled a t auth_reading c w = plain a t auth_reading c w refl
settled a t auth_writing c w = plain a t auth_writing c w refl
settled a t req_reading c w = plain a t req_reading c w refl
settled a t req_writing c w = plain a t req_writing c w refl
settled a t req_resolving c w = plain a t req_resolving c w refl
settled a t req_connecting c w = plain a t req_connecting c w refl
settled a t failed c w = plain a t failed c w refl
settled a t finished c w = plain a t finished c w refl
settled a t copying c w = to_copying a t c w

from_jump :
    (a : Answers) (t t' : SocksState) (k : Key)
    → jump (socks_stm a (some (number t))) (number t') k ≡ jumped a t t' k
unfolding jumped
from_jump a t t' k =
    jump_lem (socks_stm a (some (number t))) (number t) (number t') (definition a t)
      (definition a t') k refl (table_at a t) (table_at a t') (number_bound t')

-- An event whose callback is `f`, for the selected kind of event.
event_lem :
    (on : StateDefinition Key → Option (Key → Option (ℕ × Key))) (a : Answers) (t t' : SocksState)
    (f : SocksConn → World → Next) (c c' : SocksConn) (w w' : World)
    → on (definition a t) ≡ callback (some f)
    → c.current ≡ some (number t)
    → f c w ≡ some (t', c', w')
    → Machine.checked (handle on (socks_stm a c.current) (c, w)) ≡ settle a t t' c' w'
unfolding after_jump
event_lem on a t t' f c c' w w' u h q =
    ap (λ z. Machine.checked (handle on (socks_stm a z) (c, w))) h
    ∙ ap Machine.checked (
        handle_lem on (socks_stm a (some (number t))) (number t) (number t') (definition a t)
          (λ (c, w). numbered (f c w)) (c, w) (c', w') refl (table_at a t) u (ap numbered q)
        ∙ ap (λ (z : Option (StateMachine Key × Key)). z >>= λ (stm, k). some (number t', stm, k))
            (from_jump a t t' (c', w')))
    ∙ settled a t t' c' w'

-- A descriptor that is ready to be read, in a state that has a handler for it: the handler is run, and the
-- connection is in the state that it returns. Entering the copy phase sets that phase up; in the two
-- last states the connection is closed.
pub socks_conn_read_lem :
    (a : Answers) (t t' : SocksState) (f : SocksConn → World → Next) (c c' : SocksConn)
    (w w' : World)
    → on_read a t ≡ some f
    → c.current ≡ some (number t)
    → f c w ≡ some (t', c', w')
    → socks_conn_read a c w ≡ settle a t t' c' w'
unfolding socks_conn_read stm_handler_read
socks_conn_read_lem a t t' f c c' w w' u h q =
    event_lem (λ d. d.on_read_ready) a t t' f c c' w w' (ap callback u) h q

socks_conn_write_lem :
    (a : Answers) (t t' : SocksState) (f : SocksConn → World → Next) (c c' : SocksConn)
    (w w' : World)
    → on_write a t ≡ some f
    → c.current ≡ some (number t)
    → f c w ≡ some (t', c', w')
    → socks_conn_write a c w ≡ settle a t t' c' w'
unfolding socks_conn_write stm_handler_write
socks_conn_write_lem a t t' f c c' w w' u h q =
    event_lem (λ d. d.on_write_ready) a t t' f c c' w w' (ap callback u) h q

socks_conn_block_lem :
    (a : Answers) (t t' : SocksState) (f : SocksConn → World → Next) (c c' : SocksConn)
    (w w' : World)
    → on_block a t ≡ some f
    → c.current ≡ some (number t)
    → f c w ≡ some (t', c', w')
    → socks_conn_block a c w ≡ settle a t t' c' w'
unfolding socks_conn_block stm_handler_block
socks_conn_block_lem a t t' f c c' w w' u h q =
    event_lem (λ d. d.on_block_ready) a t t' f c c' w w' (ap callback u) h q
