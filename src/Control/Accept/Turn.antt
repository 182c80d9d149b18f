-- ===== src/Control/Accept/Turn.antt =====
-- src/server.c and src/selector.c: the event loop that accepts connections of the monitoring protocol.
use tpe_socks.Prelude.{
  ℕ, ◌<◌, ◌≡◌, ◌≢◌, refl, sym, ap, ◌∙◌, Bool, true, false, Option, some, none, List, [], ◌∷◌, ◌++◌,
  ◌==◌, if◌then◌else◌, arith, Bool-cases, inl, inr,
}
use tpe_socks.Metrics.{Metrics}
use tpe_socks.Selector.{Handler, Item, Selector, items_max_size}
use tpe_socks.Selector.Highest.{slot}
use tpe_socks.Selector.Full.{IsFull}
use tpe_socks.Selector.Dispatch.{Callbacks, Ready, SelectorKey, call}
use tpe_socks.Selector.Turn.{Promises, Returns}
use tpe_socks.Control.Conn.{Conn}
use tpe_socks.Control.ConnList.{ConnList, Node, live, any_freed}
use tpe_socks.Control.Accept.{Listening, passive_cp_socket_handler}
use tpe_socks.Control.Accept.Refused.{item_of, passive_cp_socket_handler-accepts}

-- The state of the program behind the selector, for this handler.
abbrev pub World : Type 0
World = Metrics × List ℕ × ConnList

-- The read handler of a listening socket for the monitoring protocol.
abbrev pub passive_cp : Handler
passive_cp = record { address = 1; has_close = false }

abbrev pub is_passive_cp : ℕ → Bool
is_passive_cp a = a == 1

-- What `accept` gives, by the descriptors in use, where it gives none that is in use or too high.
pub record IsKernel (accept : Selector → Option ℕ) : Type 0 where
  pub low : (s : Selector) (fd : ℕ) → accept s ≡ some fd → fd < items_max_size
  pub free : (s : Selector) (fd : ℕ) → accept s ≡ some fd → slot s.fds fd ≡ none

abbrev pub back : Option (Option Conn × Listening) → Option (Selector × World)
back none = none
back (some (c, l)) = some (l.selector, (l.metrics, l.closed, l.conn_list))

abbrev pub listening : Selector × World → Listening
listening (s, (m, c, l)) = record { selector = s; metrics = m; closed = c; conn_list = l }

-- `passive_cp_socket_handler` as a callback, with memory for each connection.
abbrev pub accept_one :
    (Selector → Option ℕ) → ℕ → SelectorKey → Selector × World → Option (Selector × World)
accept_one accept self key s = back (
    passive_cp_socket_handler
      (record { accept = accept s.0; nio = true; self = some self; alloc = false }) (listening s))

abbrev pub callbacks : (Selector → Option ℕ) → ℕ → Callbacks World
callbacks accept self = record {
  handle_read = λ h. if is_passive_cp h.address then some (accept_one accept self) else none;
  handle_write = λ _. none;
  handle_block = λ _. none;
  handle_close = λ _. none;
}

-- The listening socket at a descriptor of a full table, with no freed connection in the list.
pub record IsListening (fd : ℕ) (item : Item) (s : Selector × World) : Type 0 where
  pub full : IsFull s.0
  pub here : slot s.0.fds fd ≡ some item
  pub open_list : any_freed s.1.2.conns ≡ false

any_freed-last :
    (fd : ℕ) (xs : List Node) → any_freed xs ≡ false → any_freed (xs ++ live fd ∷ []) ≡ false
any_freed-last fd [] h = refl
any_freed-last fd (x ∷ xs) h = ground (arith, any_freed-last fd xs)

abbrev pub only : ℕ → Ready
only fd = record { slave_r = λ i. i == fd; slave_w = λ _. false }

abbrev pub listener : Item
listener = record {
  interest = record { op_read = true; op_write = false };
  handler = passive_cp;
  attached = 0;
}

none-ne-some : {A : Type 0} (x : A) → none ≢ some x
none-ne-some x e = cc

-- The descriptor that is not in use is another than the one of the listening socket.
other :
    (s : Selector) (at fd : ℕ) (x y : Item)
    → slot s.fds at ≡ some x
    → slot s.fds fd ≡ none
    → (if at == fd then some y else slot s.fds at) ≡ slot s.fds at
other s at fd x y u v = elim (Bool-cases (at == fd)) [
  | inr e ↦ rw e refl
  | inl e ↦
      let same : at ≡ fd = ground arith in
      absurd (none-ne-some x (sym v ∙ ap (λ i. slot s.fds i) (sym same) ∙ u))
]

accept_one-Returns :
    (accept : Selector → Option ℕ) (self at : ℕ) (o : Option ℕ) (key : SelectorKey)
    (s : Selector × World)
    → IsKernel accept
    → IsListening at listener s
    → accept s.0 ≡ o
    → Returns (IsListening at listener) (accept_one accept self key s)
unfolding passive_cp_socket_handler
accept_one-Returns accept self at none key s k p e = (s, rw (passive_cp_socket_handler, e) refl, p)
accept_one-Returns accept self at (some fd) key s k p e =
    let (l, ran, full, slots, conns, m, c) =
      passive_cp_socket_handler-accepts (listening s) fd self false p.open_list (k.low s.0 fd e)
        p.full (k.free s.0 fd e) in
    (
      (l.selector, (l.metrics, l.closed, l.conn_list)),
      rw (e, ran) refl,
      record {
        full = full;
        here = slots at ∙ other s.0 at fd listener (item_of self) p.here (k.free s.0 fd e) ∙ p.here;
        open_list = ap any_freed conns ∙ any_freed-last fd s.1.2.conns p.open_list;
      },
    )

-- The event loop's conditions on its handlers, with this handler in them and the socket ready.
pub callbacks-Promises :
    (accept : Selector → Option ℕ) (self at : ℕ)
    → IsKernel accept
    → Promises (callbacks accept self) (only at) (IsListening at listener)
callbacks-Promises accept self at k = record {
  valid = λ s p. p.full.valid;
  size = λ s p. p.full.size;
  reads = λ s fd x p u ready wants. reads_by s fd x p u (ground (arith, ready));
  writes = λ s fd a x p u ready wants. absurd (ground (arith, ready));
}
  where
    reads_by :
        (s : Selector × World) (fd : ℕ) (x : Item)
        → IsListening at listener s
        → slot s.0.fds fd ≡ some x
        → fd ≡ at
        → Returns (IsListening at listener) (
            call
              ((callbacks accept self).handle_read x.handler)
              (record { fd = fd; attached = x.attached })
              s)
    reads_by s fd x p u e =
        let same : some x ≡ some listener = sym u ∙ ap (λ i. slot s.0.fds i) e ∙ p.here in
        let item : x ≡ listener = cc in
        rw item (
          accept_one-Returns accept self at (accept s.0) (record { fd = fd; attached = 0 }) s k p
            refl)
