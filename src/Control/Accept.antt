-- ===== src/Control/Accept.antt =====
-- src/server.c: how a connection of the monitoring protocol is accepted, and what is left of one that
-- cannot be registered.
pub mod Refused
pub mod Turn
use tpe_socks.Prelude.{
  ℕ, ◌+◌, Bool, true, false, not, Option, none, some, List, [], ◌∷◌, ◌++◌, ◌>>=◌, if◌then◌else◌,
}
use tpe_socks.Prelude.Int.{ℤ, pos, negsuc}
use tpe_socks.Metrics.{Metrics, add_mgmt_connection, remove_current_mgmt_connection}
use tpe_socks.Selector.{
  Status, selector_success, Handler, Item, Interest, Selector, selector_register,
  selector_unregister_fd,
}
use tpe_socks.Control.Conn.{Conn, new_control_prot_conn}
use tpe_socks.Control.ConnList.{ConnList, live, add_to_list, free_conn}

-- The state of the program that the handler changes.
pub record Listening : Type 0 where
  pub selector : Selector
  pub metrics : Metrics
  pub closed : List ℕ
  pub conn_list : ConnList

-- The results of `accept`, `selector_fd_set_nio` and the allocations: the address of the block, if
-- there is memory for the connection, and whether the table of the selector can grow.
pub record Accepting : Type 0 where
  pub accept : Option ℕ
  pub nio : Bool
  pub self : Option ℕ
  pub alloc : Bool

-- `cpFdHandler`, which handles a close.
abbrev pub cp_fd_handler : Handler
cp_fd_handler = record { address = 2; has_close = true }

abbrev pub op_write : Interest
op_write = record { op_read = false; op_write = true }

-- `freeControlProtConn`, on the connection of a descriptor.
unfoldable pub free_control_prot_conn : ℕ → Listening → Option Listening
free_control_prot_conn fd s = selector_unregister_fd s.selector (pos fd) false >>= λ (_, t, _).
    some (record {
      selector = t;
      metrics = remove_current_mgmt_connection s.metrics;
      closed = s.closed ++ fd ∷ [];
      conn_list = free_conn fd s.conn_list;
    })

abbrev pub close_fd : ℕ → Listening → Option Conn × Listening
close_fd fd s = (none, record s { closed = s.closed ++ fd ∷ [] })

-- What follows the registration.
unfoldable pub registered_by : ℕ → Status × Selector → Listening → Option (Option Conn × Listening)
registered_by fd (selector_success, t) s =
    some (
      some new_control_prot_conn,
      record s { selector = t; metrics = add_mgmt_connection s.metrics },
    )
registered_by fd (_, t) s =
    free_control_prot_conn fd (record s { selector = t }) >>= λ s'. some (none, s')

-- `newControlProtConn` and what follows it.
unfoldable pub accepted_by : ℕ → Bool → Option ℕ → Listening → Option (Option Conn × Listening)
accepted_by fd alloc none s = some (close_fd fd s)
accepted_by fd alloc (some self) s = add_to_list (live fd) s.conn_list >>= λ l.
    selector_register alloc s.selector (pos fd)
      (record { interest = op_write; handler = cp_fd_handler; attached = self })
    >>= λ r. registered_by fd r (record s { conn_list = l })

unfoldable pub passive_cp_socket_handler : Accepting → Listening → Option (Option Conn × Listening)
passive_cp_socket_handler a s = elim a.accept [
  | none ↦ some (none, s)
  | some fd ↦ elim a.nio [ false ↦ some (close_fd fd s) | true ↦ accepted_by fd a.alloc a.self s ]
]
