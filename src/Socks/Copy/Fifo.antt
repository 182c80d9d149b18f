-- ===== src/Socks/Copy/Fifo.antt =====
-- The copy phase of src/socks5/socks5.c as two queues of bytes, one for each direction.
--
-- An event is a descriptor that the selector found ready, with what the system call answers: `recv`
-- stores no more than there is room for, and `send` takes no more than there is.
use tpe_socks.Prelude.{
  ℕ, zero, suc, append-nil, ◌+◌, ◌≤◌, ◌≡◌, refl, sym, ◌∙◌, ap, Bool, true, false, some, List, [],
  ◌∷◌, ◌++◌, arith, length, drop, take, if◌then◌else◌,
}
use tpe_socks.Prelude.Int.{ℤ, pos}
use tpe_socks.Buffer.{Buffer, buffer_can_write}
use tpe_socks.Buffer.Refine.{contents}
use tpe_socks.Socks.Conn.{
  SocksState, Side, cli, src, SocksConn, World, Next, Recv, received, recv_failed, Send, sent,
  send_failed,
}
use tpe_socks.Socks.Copy.{
  aux, write_buff_of, read_buff_of, with_write_buff, with_read_buff, get_copy, copy_read,
  copy_write,
}
use tpe_socks.Socks.Copy.Relaying.{Ends, IsRelaying, ends_differ}
use tpe_socks.Socks.Copy.Wakeup.{IsAwake}

-- `again` is whether the error of the call, if it is one, is EAGAIN or EWOULDBLOCK.
pub data Event : Type 0 where
  readable : Side → Recv → Bool → Event
  writable : Side → Send → Bool → Event

abbrev pub socket_of : Side → SocksConn → ℤ
socket_of cli c = c.cli_socket
socket_of src c = c.src_socket

unfoldable pub relay : Event → SocksConn → World → Next
relay (readable s r again) c w = copy_read (socket_of s c) r again c w
relay (writable s r again) c w = copy_write (socket_of s c) r again c w

-- What the system may answer.
abbrev pub Allowed : Event → SocksConn → Type 0
Allowed (readable s (received xs) _) c =
    (write_buff_of s c).write + length xs ≤ (write_buff_of s c).limit
Allowed (readable s recv_failed _) c = Unit
Allowed (writable s (sent n) _) c = (read_buff_of s c).read + n ≤ (read_buff_of s c).write
Allowed (writable s send_failed _) c = Unit

abbrev pub same_side : Side → Side → Bool
same_side cli cli = true
same_side src src = true
same_side _ _ = false

-- The bytes of an event that are received for side `t`: none if there is no room at all, since `recv` is
-- not called then.
abbrev pub taken_for : Side → Event → SocksConn → List ℕ
taken_for t (readable s (received xs) _) c =
    if same_side (aux s) t then (if buffer_can_write (write_buff_of s c) then xs else []) else []
taken_for t _ c = []

-- The bytes of an event that are sent to side `t`.
abbrev pub sent_to : Side → Event → SocksConn → List ℕ
sent_to t (writable s (sent n) _) c =
    if same_side s t then take n (contents (read_buff_of s c)) else []
sent_to t _ c = []

pub get_copy_lem :
    (e : Ends) (s : Side) (c : SocksConn) (w : World)
    → IsRelaying e c w
    → (socket_of s c ≡ pos (e.fd s)) × (get_copy (socket_of s c) c ≡ some s)
unfolding get_copy
get_copy_lem e cli c w r = (r.sockets.0, rw (r.sockets.0, r.sockets.1) (ground arith))
get_copy_lem e src c w r =
    (r.sockets.1, rw (r.sockets.0, r.sockets.1) (ground (arith, ends_differ e cli)))

take-drop : (n : ℕ) (xs : List ℕ) → take n xs ++ drop n xs ≡ xs
take-drop zero xs = refl
take-drop (suc n) [] = refl
take-drop (suc n) (x ∷ xs) = ap (λ t. x ∷ t) (take-drop n xs)

-- Not the end of a stream.
abbrev pub goes_on : Event → Bool
goes_on (readable _ (received []) again) = again
goes_on (readable _ (received (_ ∷ _)) _) = true
goes_on (readable _ recv_failed again) = again
goes_on (writable _ _ _) = true

-- The two queues, before and after, and what the two sides wait for.
pub record Moves (e : Ends) (ev : Event) (c c' : SocksConn) (w' : World) : Type 0 where
  pub relaying : IsRelaying e c' w'
  pub queues :
      (t : Side)
      → sent_to t ev c ++ contents (read_buff_of t c')
        ≡ contents (read_buff_of t c) ++ taken_for t ev c
  pub wakes : IsAwake c → goes_on ev ≡ true → IsAwake c'

pub queue_received :
    (s t : Side) (b : Buffer) (c c' : SocksConn) (xs : List ℕ)
    → ((u : Side) → write_buff_of u c' ≡ write_buff_of u (with_write_buff s b c))
    → contents b ≡ contents (write_buff_of s c) ++ xs
    → contents (read_buff_of t c')
      ≡ contents (read_buff_of t c) ++ (if same_side (aux s) t then xs else [])
queue_received cli cli b c c' xs k h = ap contents (k src) ∙ sym (append-nil (contents c.read_buff))
queue_received cli src b c c' xs k h = ap contents (k cli) ∙ h
queue_received src cli b c c' xs k h = ap contents (k src) ∙ h
queue_received src src b c c' xs k h =
    ap contents (k cli) ∙ sym (append-nil (contents c.write_buff))

pub queue_same :
    (t : Side) (c c' : SocksConn)
    → ((u : Side) → write_buff_of u c' ≡ write_buff_of u c)
    → contents (read_buff_of t c') ≡ contents (read_buff_of t c)
queue_same cli c c' k = ap contents (k src)
queue_same src c c' k = ap contents (k cli)

pub queue_sent :
    (s t : Side) (b : Buffer) (c c' : SocksConn) (n : ℕ)
    → ((u : Side) → write_buff_of u c' ≡ write_buff_of u (with_read_buff s b c))
    → contents b ≡ drop n (contents (read_buff_of s c))
    → (if same_side s t then take n (contents (read_buff_of s c)) else [])
        ++ contents (read_buff_of t c')
      ≡ contents (read_buff_of t c) ++ []
queue_sent cli cli b c c' n k h =
    ap (λ z. take n (contents c.read_buff) ++ z) (ap contents (k src) ∙ h)
    ∙ take-drop n (contents c.read_buff)
    ∙ sym (append-nil (contents c.read_buff))
queue_sent cli src b c c' n k h = ap contents (k cli) ∙ sym (append-nil (contents c.write_buff))
queue_sent src cli b c c' n k h = ap contents (k src) ∙ sym (append-nil (contents c.read_buff))
queue_sent src src b c c' n k h =
    ap (λ z. take n (contents c.write_buff) ++ z) (ap contents (k cli) ∙ h)
    ∙ take-drop n (contents c.write_buff)
    ∙ sym (append-nil (contents c.write_buff))

-- What an event leads to.
abbrev pub Result : Ends → Event → SocksConn → World → Type 0
Result e ev c w =
    (t : SocksState) × (c' : SocksConn) × (w' : World) × (relay ev c w ≡ some (t, c', w'))
    × Moves e ev c c' w'

pub if_same : (b : Bool) (xs : List ℕ) → xs ≡ [] → (if b then xs else []) ≡ []
if_same true xs h = h
if_same false xs h = refl

pub nothing_received :
    (e : Ends) (s : Side) (r : Recv) (again : Bool) (c c' : SocksConn) (w' : World)
    → IsRelaying e c' w'
    → ((t : Side) → taken_for t (readable s r again) c ≡ [])
    → ((t : Side) → write_buff_of t c' ≡ write_buff_of t c)
    → (IsAwake c → goes_on (readable s r again) ≡ true → IsAwake c')
    → Moves e (readable s r again) c c' w'
nothing_received e s r again c c' w' i n k u = record {
  wakes = u;
  relaying = i;
  queues = λ t. rw (n t) (queue_same t c c' k ∙ sym (append-nil (contents (read_buff_of t c))));
}
