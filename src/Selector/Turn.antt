-- ===== src/Selector/Turn.antt =====
-- A turn of the event loop of src/selector.c, against what its handlers promise.
use tpe_socks.Prelude.{
  ℕ, zero, suc, ◌+◌, ◌≤◌, ◌≡◌, refl, true, ◌&&◌, Option, none, some, List, [], ◌∷◌, arith, length,
  ◌==◌, ◌>>=◌, Bool-cases, inl, inr, get_elem?,
}
use tpe_socks.Selector.{selector_success, selector_io, Item, Selector, items_max_size}
use tpe_socks.Selector.Highest.{slot}
use tpe_socks.Selector.Inv.{IsValid, get_elem?-slot}
use tpe_socks.Selector.Dispatch.{
  Callbacks, Ready, Selected, interrupted, io_error, ready_fds, call, read_turn, write_item,
  write_turn, item_turn, iterate, handle_iteration, handle_block_notifications, selector_select,
}

module _ {W : Type 0} where
  -- A call that returns, in a state where `P` holds.
  abbrev pub Returns : (Selector × W → Type 0) → Option (Selector × W) → Type 0
  Returns P o = (t : Selector × W) × (o ≡ some t) × P t

  -- What the handlers promise in states where `P` holds: for a descriptor that is ready and whose item
  -- wants the event, and only then, the handler is there and returns in a state where `P` holds. The
  -- write handler may be given the data of the item from before the read handler.
  pub record Promises (h : Callbacks W) (r : Ready) (P : Selector × W → Type 0) : Type 0 where
    pub valid : (s : Selector × W) → P s → IsValid s.0
    pub size : (s : Selector × W) → P s → length s.0.fds ≡ items_max_size + 1
    pub reads :
        (s : Selector × W) (fd : ℕ) (x : Item)
        → P s
        → slot s.0.fds fd ≡ some x
        → r.slave_r fd ≡ true
        → x.interest.op_read ≡ true
        → Returns P (call (h.handle_read x.handler) (record { fd = fd; attached = x.attached }) s)
    pub writes :
        (s : Selector × W) (fd attached : ℕ) (x : Item)
        → P s
        → slot s.0.fds fd ≡ some x
        → r.slave_w fd ≡ true
        → x.interest.op_write ≡ true
        → Returns P (call (h.handle_write x.handler) (record { fd = fd; attached = attached }) s)

  -- The promises that a turn needs: those for the descriptors that are ready.
  abbrev pub PromisesFor : Callbacks W → (Selector × W → Type 0) → Selected → Type 0
  PromisesFor h P (ready_fds r) = Promises h r P
  PromisesFor h P _ = Unit

  -- How a turn ends: with the error of `pselect` and nothing changed; with no job that has finished,
  -- in a state where `P` holds; and else in a fault.
  abbrev pub Turns :
      Callbacks W → (Selector × W → Type 0) → Selected → List ℕ → Selector × W → Type 0
  Turns h P io_error jobs s = selector_select h io_error jobs s ≡ some (selector_io, s.0, s.1)
  Turns h P selected [] s =
      (t : Selector × W) × (selector_select h selected [] s ≡ some (selector_success, t.0, t.1))
      × P t
  Turns h P selected (fd ∷ jobs) s = selector_select h selected (fd ∷ jobs) s ≡ none

  -- A job that has finished ends in the fault, whatever its handler does.
  >>=-none :
      (o : Option (Selector × W)) (f : Selector × W → Option (Selector × W))
      → ((t : Selector × W) → f t ≡ none)
      → (o >>= f) ≡ none
  >>=-none none f h = refl
  >>=-none (some t) f h = h t

  handle_block_notifications-faults :
      (h : Callbacks W) (fd : ℕ) (jobs : List ℕ) (s : Selector × W)
      → handle_block_notifications h (fd ∷ jobs) s ≡ none
  unfolding handle_block_notifications
  handle_block_notifications-faults h fd jobs s = >>=-none _ _ (λ t. refl)

  handle_block_notifications-nil :
      (h : Callbacks W) (s : Selector × W) → handle_block_notifications h [] s ≡ some s
  unfolding handle_block_notifications
  handle_block_notifications-nil h s = refl

  module _ (h : Callbacks W) (r : Ready) (P : Selector × W → Type 0) (k : Promises h r P) where
    >>=-Returns :
        (o : Option (Selector × W)) (f : Selector × W → Option (Selector × W))
        → Returns P o
        → ((t : Selector × W) → P t → Returns P (f t))
        → Returns P (o >>= f)
    >>=-Returns o f (t, e, p) g = rw e (g t p)

    read_turn-Returns :
        (fd : ℕ) (x : Item) (s : Selector × W)
        → P s
        → slot s.0.fds fd ≡ some x
        → Returns P (read_turn h r (record { fd = fd; attached = x.attached }) x s)
    unfolding read_turn
    read_turn-Returns fd x s p u = elim (Bool-cases (r.slave_r fd && x.interest.op_read)) [
      | inl e ↦ rw e (k.reads s fd x p u (ground arith) (ground arith))
      | inr e ↦ rw e (s, refl, p)
    ]

    in_table :
        (s : Selector × W) (fd : ℕ)
        → P s
        → fd ≤ items_max_size
        → get_elem? s.0.fds fd ≡ some (slot s.0.fds fd)
    in_table s fd p b = get_elem?-slot s.0.fds fd (omega (arith, k.size s p))

    write_item-Returns :
        (fd attached : ℕ) (item : Option Item) (s : Selector × W)
        → P s
        → slot s.0.fds fd ≡ item
        → r.slave_w fd ≡ true
        → Returns P (write_item h (record { fd = fd; attached = attached }) (some item) s)
    unfolding write_item
    write_item-Returns fd attached none s p u ready = (s, refl, p)
    write_item-Returns fd attached (some x) s p u ready = elim (Bool-cases x.interest.op_write) [
      | inl e ↦ rw e (k.writes s fd attached x p u ready e)
      | inr e ↦ rw e (s, refl, p)
    ]

    write_turn-Returns :
        (fd attached size : ℕ) (s : Selector × W)
        → P s
        → fd ≤ items_max_size
        → size ≡ items_max_size + 1
        → Returns P (write_turn h r (record { fd = fd; attached = attached }) size s)
    unfolding write_turn
    write_turn-Returns fd attached size s p b n = elim (Bool-cases (r.slave_w fd)) [
      | inr e ↦ rw e (s, refl, p)
      | inl e ↦
          let same : (length s.0.fds == size) ≡ true = ground (arith, k.size s p) in
          rw (e, same, in_table s fd p b)
            (write_item-Returns fd attached (slot s.0.fds fd) s p refl e)
    ]

    item_turn-Returns :
        (fd : ℕ) (item : Option Item) (s : Selector × W)
        → P s
        → fd ≤ items_max_size
        → slot s.0.fds fd ≡ item
        → Returns P (item_turn h r fd (some item) s)
    unfolding item_turn
    item_turn-Returns fd none s p b u = (s, refl, p)
    item_turn-Returns fd (some x) s p b u =
        >>=-Returns _ _ (read_turn-Returns fd x s p u)
          (λ t q. write_turn-Returns fd x.attached (length s.0.fds) t q b (k.size s p))

    iterate-Returns :
        (n i : ℕ) (s : Selector × W)
        → P s
        → i + n ≤ items_max_size + 1
        → Returns P (iterate h r n i s)
    unfolding iterate
    iterate-Returns zero i s p b = (s, refl, p)
    iterate-Returns (suc n) i s p b = rw (in_table s i p (omega arith)) (
        >>=-Returns _ _ (item_turn-Returns i (slot s.0.fds i) s p (omega arith) refl)
          (λ t q. iterate-Returns n (suc i) t q (omega arith)))

    pub handle_iteration-Returns : (s : Selector × W) → P s → Returns P (handle_iteration h r s)
    unfolding handle_iteration
    handle_iteration-Returns s p =
        let v = k.valid s p in
        iterate-Returns (suc s.0.max_fd) 0 s p (omega (arith, v.highest_in, k.size s p))

  -- If the handlers keep a property of the state for the descriptors that are ready, a property with
  -- which the table is valid and has the size that the server gives it, then so does a whole turn of the
  -- event loop, from a state where it holds and with no job that has finished: it calls a handler only
  -- for an item that is in the table at that moment, is ready and wants the event, reads no item behind
  -- the table, and returns success. With a job that has finished the turn reads freed memory, unless
  -- `pselect` failed: then nothing changes, and the turn returns the error.
  pub selector_select-Returns :
      (h : Callbacks W) (P : Selector × W → Type 0) (selected : Selected) (jobs : List ℕ)
      (s : Selector × W)
      → PromisesFor h P selected
      → P s
      → Turns h P selected jobs s
  unfolding selector_select
  selector_select-Returns h P io_error jobs s k p = refl
  selector_select-Returns h P interrupted [] s k p =
      (s, rw (handle_block_notifications-nil h s) refl, p)
  selector_select-Returns h P interrupted (fd ∷ jobs) s k p =
      rw (handle_block_notifications-faults h fd jobs s) refl
  selector_select-Returns h P (ready_fds r) [] s k p =
      let (t, e, q) = handle_iteration-Returns h r P k s p in
      (t, rw (e, handle_block_notifications-nil h t) refl, q)
  selector_select-Returns h P (ready_fds r) (fd ∷ jobs) s k p =
      rw
        (>>=-none (handle_iteration h r s) (λ t. handle_block_notifications h (fd ∷ jobs) t)
          (λ t. handle_block_notifications-faults h fd jobs t))
        refl
