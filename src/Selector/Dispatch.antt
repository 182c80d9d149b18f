-- ===== src/Selector/Dispatch.antt =====
-- src/selector.c: one turn of the event loop, which calls the handlers of the descriptors that are
-- ready and of the jobs that other threads have finished.
--
-- The handlers are a parameter: functions on the selector and on the rest of the program's state,
-- which may fault. A null pointer for a handler that is called is a fault, and so is an item that is
-- read through a pointer into a table that a handler has made grow. The jobs are the descriptors of
-- the list, the latest first; both loops over them free a job and then read its link, which is a fault.
-- The mutex and the signal that wakes `pselect` are not modelled.
use tpe_socks.Prelude.{
  ℕ, zero, suc, Bool, true, false, ◌&&◌, Option, none, some, List, [], ◌∷◌, ◌==◌, if◌then◌else◌,
  ◌>>=◌, length, get_elem?, bit_or,
}
use tpe_socks.Prelude.Int.{ℤ, pos, negsuc}
use tpe_socks.Selector.{
  Status, selector_success, selector_enomem, selector_iargs, selector_io, Handler, Item, Interest,
  Selector, invalid_fd, selector_set_interest, selector_unregister_fd,
}

-- `struct selector_key`; its selector is passed with the state.
pub record SelectorKey : Type 0 where
  pub fd : ℕ
  pub attached : ℕ

abbrev pub Callback : Type 0 → Type 0
Callback W = SelectorKey → Selector × W → Option (Selector × W)

-- The functions of a `fd_handler`; `none` for a null pointer.
pub record Callbacks (W : Type 0) : Type 0 where
  pub handle_read : Handler → Option (Callback W)
  pub handle_write : Handler → Option (Callback W)
  pub handle_block : Handler → Option (Callback W)
  pub handle_close : Handler → Option (Callback W)

-- The sets of ready descriptors, `slave_r` and `slave_w`.
pub record Ready : Type 0 where
  pub slave_r : ℕ → Bool
  pub slave_w : ℕ → Bool

-- What `pselect` returns: a signal or nothing to read, another error, or the sets.
pub data Selected : Type 0 where
  interrupted io_error : Selected
  ready_fds : Ready → Selected

module _ {W : Type 0} where
  abbrev pub call : Option (Callback W) → SelectorKey → Selector × W → Option (Selector × W)
  call none key s = none
  call (some f) key s = f key s

  -- The read handler of the item `x`.
  unfoldable pub read_turn :
      Callbacks W → Ready → SelectorKey → Item → Selector × W → Option (Selector × W)
  read_turn h ready key x s =
      if ready.slave_r key.fd && x.interest.op_read
      then call (h.handle_read x.handler) key s
      else some s

  -- The write handler of the item that is in the table by then; the key is the one from before.
  unfoldable pub write_item :
      Callbacks W → SelectorKey → Option (Option Item) → Selector × W → Option (Selector × W)
  write_item h key none s = none
  write_item h key (some none) s = some s
  write_item h key (some (some x)) s =
      if x.interest.op_write then call (h.handle_write x.handler) key s else some s

  -- `size` is the size of the table that the pointer to the item points into.
  unfoldable pub write_turn :
      Callbacks W → Ready → SelectorKey → ℕ → Selector × W → Option (Selector × W)
  unfolding write_item
  write_turn h ready key size s =
      if ready.slave_w key.fd
      then (if length s.0.fds == size then write_item h key (get_elem? s.0.fds key.fd) s else none)
      else some s

  -- The body of the loop for the item at an index.
  unfoldable pub item_turn :
      Callbacks W → Ready → ℕ → Option (Option Item) → Selector × W → Option (Selector × W)
  item_turn h ready i none s = none
  item_turn h ready i (some none) s = some s
  item_turn h ready i (some (some x)) s =
      let key : SelectorKey = record { fd = i; attached = x.attached } in
      read_turn h ready key x s >>= λ s'. write_turn h ready key (length s.0.fds) s'

  -- `n` rounds of the loop, from index `i` on.
  unfoldable pub iterate : Callbacks W → Ready → ℕ → ℕ → Selector × W → Option (Selector × W)
  iterate h ready zero i s = some s
  iterate h ready (suc n) i s =
      item_turn h ready i (get_elem? s.0.fds i) s >>= λ s'. iterate h ready n (suc i) s'

  -- The bound of the loop is the highest descriptor at its start.
  unfoldable pub handle_iteration : Callbacks W → Ready → Selector × W → Option (Selector × W)
  handle_iteration h ready s = iterate h ready (suc s.0.max_fd) 0 s

  unfoldable pub job_turn :
      Callbacks W → ℕ → Option (Option Item) → Selector × W → Option (Selector × W)
  job_turn h fd none s = none
  job_turn h fd (some none) s = some s
  job_turn h fd (some (some x)) s =
      call (h.handle_block x.handler) (record { fd = fd; attached = x.attached }) s

  -- The item of the first job is notified, and the job is freed; `j = j->next` then reads the freed job.
  unfoldable pub handle_block_notifications :
      Callbacks W → List ℕ → Selector × W → Option (Selector × W)
  handle_block_notifications h [] s = some s
  handle_block_notifications h (fd ∷ jobs) s = job_turn h fd (get_elem? s.0.fds fd) s >>= λ s'. none

  abbrev succeeded : Option (Selector × W) → Option (Status × Selector × W)
  succeeded none = none
  succeeded (some (s, w)) = some (selector_success, s, w)

  -- The jobs are notified unless `pselect` failed.
  unfoldable pub selector_select :
      Callbacks W → Selected → List ℕ → Selector × W → Option (Status × Selector × W)
  selector_select h interrupted jobs s = succeeded (handle_block_notifications h jobs s)
  selector_select h io_error jobs s = some (selector_io, s.0, s.1)
  selector_select h (ready_fds r) jobs s =
      succeeded (handle_iteration h r s >>= λ s'. handle_block_notifications h jobs s')

  -- An item is closed by its handler, if that handles a close, and then taken out; the item must still
  -- be there.
  unfoldable pub close_item :
      Callbacks W → ℕ → Option (Option Item) → Selector × W → Option (Selector × W)
  close_item h i none s = none
  close_item h i (some none) s = some s
  close_item h i (some (some x)) s =
      (if x.handler.has_close
        then call (h.handle_close x.handler) (record { fd = i; attached = x.attached }) s
        else some s)
      >>= λ s'. selector_unregister_fd s'.0 (pos i) false >>= λ (status, t, _). elim status [
        | selector_success ↦ some (t, s'.1)
        | _ ↦ none
      ]

  -- `n` rounds of the loop of `selector_destroy` over the items, from index `i` on.
  unfoldable pub close_items : Callbacks W → ℕ → ℕ → Selector × W → Option (Selector × W)
  close_items h zero i s = some s
  close_items h (suc n) i s =
      close_item h i (get_elem? s.0.fds i) s >>= λ s'. close_items h n (suc i) s'

  -- The loop that frees the jobs; `j = j->next` reads the job that was freed.
  unfoldable pub free_jobs : List ℕ → Selector × W → Option (Selector × W)
  free_jobs [] s = some s
  free_jobs (fd ∷ jobs) s = none

  -- The state that the handlers leave when the items are closed and the memory is freed. The handlers
  -- of the program that close do not make the table grow, so that its size is the one at the start.
  unfoldable pub selector_destroy : Callbacks W → List ℕ → Selector × W → Option (Selector × W)
  unfolding close_items free_jobs
  selector_destroy h jobs s = close_items h (length s.0.fds) 0 s >>= λ s'. free_jobs jobs s'

-- A job is put in front of the list; `alloc` is whether `malloc` succeeds.
unfoldable pub selector_notify_block : Bool → List ℕ → ℕ → Status × List ℕ
selector_notify_block alloc jobs fd =
    if alloc then (selector_success, fd ∷ jobs) else (selector_enomem, jobs)

-- With a key that is not a null pointer.
unfoldable pub selector_set_interest_key :
    Selector → SelectorKey → Interest → Option (Status × Selector)
unfolding selector_set_interest
selector_set_interest_key s key i =
    if invalid_fd (pos key.fd)
    then some (selector_iargs, s)
    else selector_set_interest s (pos key.fd) i

-- The flags of a descriptor in the system: of the descriptor (`F_GETFD`) and of the file (`F_GETFL`).
pub record FdFlags : Type 0 where
  pub fd_flags : ℕ
  pub status_flags : ℕ

abbrev pub o_nonblock : ℕ
o_nonblock = 2048

-- `flags` are those before, if the descriptor is open; `set` is whether they can be set.
unfoldable pub selector_fd_set_nio : Option FdFlags → Bool → ℤ × Option FdFlags
selector_fd_set_nio none set = (negsuc 0, none)
selector_fd_set_nio (some flags) false = (negsuc 0, some flags)
selector_fd_set_nio (some flags) true =
    (pos 0, some (record flags { status_flags = bit_or flags.fd_flags o_nonblock }))
