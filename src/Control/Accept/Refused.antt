-- ===== src/Control/Accept/Refused.antt =====
-- What becomes of connections that src/server.c accepts for the monitoring protocol.
use tpe_socks.Prelude.{
  ℕ, ◌≤◌, ◌<◌, ◌≡◌, refl, ◌∙◌, Bool, true, false, Option, none, some, [], ◌∷◌, ◌++◌, ◌==◌, ◌&&◌,
  if◌then◌else◌, arith,
}
use tpe_socks.Prelude.Int.{pos}
use tpe_socks.Metrics.{add_mgmt_connection, remove_current_mgmt_connection}
use tpe_socks.Selector.{
  Status, selector_success, selector_iargs, Item, Selector, items_max_size, selector_register,
  selector_unregister_fd,
}
use tpe_socks.Selector.Highest.{slot}
use tpe_socks.Selector.Register.{is_success}
use tpe_socks.Selector.Full.{IsFull, selector_register-IsFull}
use tpe_socks.Control.Conn.{new_control_prot_conn}
use tpe_socks.Control.ConnList.{live, free_conn, any_freed, add_to_list-open, add_to_list-freed}
use tpe_socks.Control.Accept.{
  Listening, op_write, cp_fd_handler, free_control_prot_conn, registered_by, accepted_by,
  passive_cp_socket_handler,
}

-- What was accepted is in the table of the selector, waiting to write.
abbrev pub item_of : ℕ → Item
item_of self = record { interest = op_write; handler = cp_fd_handler; attached = self }

out_of_range :
    (fd : ℕ) (alloc : Bool) (s : Selector) (item : Item)
    → items_max_size ≤ fd
    → selector_register alloc s (pos fd) item ≡ some (selector_iargs, s)
unfolding selector_register
out_of_range fd alloc s item h = ground arith

not_there :
    (fd : ℕ) (s : Selector)
    → items_max_size ≤ fd
    → selector_unregister_fd s (pos fd) false ≡ some (selector_iargs, s, none)
unfolding selector_unregister_fd
not_there fd s h = ground arith

-- What a connection on a descriptor that the selector refuses does, and the next connection.
abbrev pub Refuses : (s : Listening) (fd self fd' self' : ℕ) (alloc alloc' : Bool) → Type 0
Refuses s fd self fd' self' alloc alloc' =
    (s' : Listening) × (passive_cp_socket_handler
        (record { accept = some fd; nio = true; self = some self; alloc = alloc }) s
      ≡ some (none, s'))
    × (s'.selector ≡ s.selector)
    × (s'.closed ≡ s.closed ++ fd ∷ [])
    × (s'.metrics ≡ remove_current_mgmt_connection s.metrics)
    × (passive_cp_socket_handler
          (record { accept = some fd'; nio = true; self = some self'; alloc = alloc' }) s'
        ≡ none)

-- A descriptor of 1024 or more is accepted and closed again, with a connection less counted, and the
-- connection that was freed stays in the list: the next one that is accepted is a read of that block.
pub refused_then_faults :
    (s : Listening) (fd self fd' self' : ℕ) (alloc alloc' : Bool)
    → any_freed s.conn_list.conns ≡ false
    → items_max_size ≤ fd
    → Refuses s fd self fd' self' alloc alloc'
unfolding passive_cp_socket_handler accepted_by registered_by free_control_prot_conn
refused_then_faults s fd self fd' self' alloc alloc' h big =
    let (l, e, c, o) = add_to_list-open fd s.conn_list h in
    (
      record {
        selector = s.selector;
        metrics = remove_current_mgmt_connection s.metrics;
        closed = s.closed ++ fd ∷ [];
        conn_list = free_conn fd l;
      },
      rw (e, out_of_range fd alloc s.selector (item_of self) big, not_there fd s.selector big) refl,
      refl,
      refl,
      refl,
      rw (add_to_list-freed fd l (live fd') o) refl,
    )

registered_by-success :
    (fd : ℕ) (r : Status × Selector) (s : Listening)
    → r.0 ≡ selector_success
    → registered_by fd r s
      ≡ some (
        some new_control_prot_conn,
        record s { selector = r.1; metrics = add_mgmt_connection s.metrics },
      )
unfolding registered_by
registered_by-success fd (t, u) s e = rw e refl

success_slots :
    (r : Status × Selector) (i fd : ℕ) (x y : Option Item)
    → r.0 ≡ selector_success
    → (if is_success r.0 && (i == fd) then x else y) ≡ (if i == fd then x else y)
success_slots (t, u) i fd x y e = rw e refl

-- What a connection that is accepted does.
abbrev pub AcceptsAt : (s : Listening) (fd self : ℕ) (alloc : Bool) → Type 0
AcceptsAt s fd self alloc =
    (s' : Listening) × (passive_cp_socket_handler
        (record { accept = some fd; nio = true; self = some self; alloc = alloc }) s
      ≡ some (some new_control_prot_conn, s'))
    × IsFull s'.selector
    × ((i : ℕ)
        → slot s'.selector.fds i ≡ (if i == fd then some (item_of self) else slot s.selector.fds i))
    × (s'.conn_list.conns ≡ s.conn_list.conns ++ live fd ∷ [])
    × (s'.metrics ≡ add_mgmt_connection s.metrics)
    × (s'.closed ≡ s.closed)

-- With the table that the program makes, a connection on a descriptor below 1024 that is not in use is
-- registered, waiting to write its greeting, put behind the others in the list and counted, whether or
-- not there is memory for a larger table; nothing is closed and no other item changes.
pub passive_cp_socket_handler-accepts :
    (s : Listening) (fd self : ℕ) (alloc : Bool)
    → any_freed s.conn_list.conns ≡ false
    → fd < items_max_size
    → IsFull s.selector
    → slot s.selector.fds fd ≡ none
    → AcceptsAt s fd self alloc
unfolding passive_cp_socket_handler accepted_by
passive_cp_socket_handler-accepts s fd self alloc h b f free =
    let (l, e, c, o) = add_to_list-open fd s.conn_list h in
    let (r, reg, done, full) = selector_register-IsFull alloc s.selector fd (item_of self) f b in
    let status : r.0 ≡ selector_success = done.status_given ∙ rw free refl in
    (
      record {
        selector = r.1;
        metrics = add_mgmt_connection s.metrics;
        closed = s.closed;
        conn_list = l;
      },
      rw (e, reg) (registered_by-success fd r (record s { conn_list = l }) status),
      full,
      λ i. done.slots i ∙ success_slots r i fd (some (item_of self)) (slot s.selector.fds i) status,
      c,
      refl,
      refl,
    )
