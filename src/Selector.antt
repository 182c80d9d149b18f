-- ===== src/Selector.antt =====
-- src/selector.c and src/include/selector.h: the table of file descriptors and what they wait for.
--
-- An item that is in use has its index as its descriptor. An access behind the table is a fault. The
-- descriptor sets of `select` are functions.
pub mod Capacity
pub mod Inv
pub mod Highest
pub mod Dispatch
pub mod Turn
pub mod Full
pub mod Register
use tpe_socks.Prelude.{
  ℕ, zero, suc, ◌+◌, ◌-◌, ◌/◌, ◌%◌, ◌^◌, min, Bool, true, false, not, ◌&&◌, Option, none, some,
  List, [], ◌∷◌, ◌++◌, ◌==◌, if◌then◌else◌, ltb, leb, length, get_elem?, set, replicate,
}
use tpe_socks.Prelude.Int.{ℤ, pos, negsuc}

-- `selector_status`, as far as the modelled functions return it.
pub data Status : Type 0 where
  selector_success selector_enomem selector_maxfd selector_iargs selector_fdinuse selector_io :
      Status

-- `fd_interest`, a set of two flags.
pub record Interest : Type 0 where
  pub op_read : Bool
  pub op_write : Bool

-- `fd_handler`, by its address and whether it handles a close.
pub record Handler : Type 0 where
  pub address : ℕ
  pub has_close : Bool

-- `struct item` in use; `attached` is its `data`.
pub record Item : Type 0 where
  pub interest : Interest
  pub handler : Handler
  pub attached : ℕ

-- `struct fdselector`; an item with `FD_UNUSED` is `none`, and `fd_size` is the length of `fds`.
pub record Selector : Type 0 where
  pub fds : List (Option Item)
  pub max_fd : ℕ
  pub master_r : ℕ → Bool
  pub master_w : ℕ → Bool

-- `FD_SETSIZE` of the platform.
abbrev pub items_max_size : ℕ
items_max_size = 1024

-- The rounds of the loop of `next_capacity`; `n` rounds are enough.
unfoldable pub bits : ℕ → ℕ → ℕ
bits zero n = 0
bits (suc fuel) n = let rest = bits fuel (n / 2) in if n == 0 then 0 else suc rest

unfoldable pub next_capacity : ℕ → ℕ
unfolding bits
next_capacity n = min (2 ^ bits n n % 2 ^ 64) items_max_size + 1

-- `alloc` is whether `calloc` or `realloc` succeeds; the new items are unused.
unfoldable pub ensure_capacity : Bool → Selector → ℕ → Status × Selector
unfolding next_capacity
ensure_capacity alloc s n =
    if ltb n (length s.fds)
    then (selector_success, s)
    else if ltb items_max_size n
    then (selector_maxfd, s)
    else if not alloc
    then (selector_enomem, s)
    else (
      selector_success,
      record s { fds = s.fds ++ replicate (next_capacity n - length s.fds) none },
    )

abbrev pub is_used : Option Item → Bool
is_used none = false
is_used (some _) = true

abbrev pub wants_read : Option Item → Bool
wants_read none = false
wants_read (some x) = x.interest.op_read

abbrev pub wants_write : Option Item → Bool
wants_write none = false
wants_write (some x) = x.interest.op_write

-- The loop of `items_max_fd` from index `i` on, up to `last`.
unfoldable pub max_from : List (Option Item) → ℕ → ℕ → ℕ → ℕ
max_from [] i last max = max
max_from (x ∷ xs) i last max =
    let rest = max_from xs (suc i) last (if is_used x && ltb max i then i else max) in
    if leb i last then rest else max

unfoldable pub items_max_fd : Selector → ℕ
unfolding max_from
items_max_fd s = max_from s.fds 0 s.max_fd 0

-- One descriptor's membership of a set, after it was cleared.
abbrev pub assign : (ℕ → Bool) → ℕ → Bool → ℕ → Bool
assign f fd v i = if i == fd then v else f i

unfoldable pub items_update_fdset_for_fd : Selector → ℕ → Option Item → Selector
items_update_fdset_for_fd s fd item = record s {
  master_r = assign s.master_r fd (wants_read item);
  master_w = assign s.master_w fd (wants_write item);
}

abbrev pub invalid_fd : ℤ → Bool
invalid_fd (negsuc _) = true
invalid_fd (pos fd) = leb items_max_size fd

abbrev pub to_size : ℤ → ℕ
to_size (pos fd) = fd
to_size (negsuc _) = 0

-- The registration itself, once there is space.
unfoldable pub put_item : Selector → ℕ → Item → Option (Status × Selector)
unfolding items_update_fdset_for_fd
put_item s fd item = elim (get_elem? s.fds fd) [
  | none ↦ none
  | some (some _) ↦ some (selector_fdinuse, s)
  | some none ↦ some (
    selector_success,
    items_update_fdset_for_fd
        (record s {
          fds = set s.fds fd (some item);
          max_fd = if ltb s.max_fd fd then fd else s.max_fd;
        })
        fd (some item),
  )
]

unfoldable pub register_grown : ℕ → Item → Status × Selector → Option (Status × Selector)
unfolding put_item
register_grown fd item (selector_success, s) = put_item s fd item
register_grown fd item (t, s) = some (t, s)

-- With a selector and a handler that are not null pointers.
unfoldable pub selector_register : Bool → Selector → ℤ → Item → Option (Status × Selector)
unfolding ensure_capacity register_grown
selector_register alloc s fd item =
    if invalid_fd fd
    then some (selector_iargs, s)
    else register_grown (to_size fd) item (
        if ltb (length s.fds) (to_size fd)
        then ensure_capacity alloc s (to_size fd)
        else (selector_success, s))

-- Also returned is the item whose handler's `handle_close` is called.
unfoldable pub selector_unregister_fd :
    Selector → ℤ → Bool → Option (Status × Selector × Option Item)
unfolding items_update_fdset_for_fd items_max_fd
selector_unregister_fd s fd use_close =
    if invalid_fd fd then some (selector_iargs, s, none) else elim (get_elem? s.fds (to_size fd)) [
      | none ↦ none
      | some none ↦ some (selector_iargs, s, none)
      | some (some x) ↦
          let cleared = items_update_fdset_for_fd s (to_size fd) none in
          let removed = record cleared { fds = set s.fds (to_size fd) none } in
          some (
            selector_success,
            record removed { max_fd = items_max_fd removed },
            if x.handler.has_close && use_close then some x else none,
          )
    ]

unfoldable pub selector_set_interest : Selector → ℤ → Interest → Option (Status × Selector)
unfolding items_update_fdset_for_fd
selector_set_interest s fd i =
    if invalid_fd fd then some (selector_iargs, s) else elim (get_elem? s.fds (to_size fd)) [
      | none ↦ none
      | some none ↦ some (selector_iargs, s)
      | some (some x) ↦
          let y = record x { interest = i } in
          some (
            selector_success,
            items_update_fdset_for_fd (record s { fds = set s.fds (to_size fd) (some y) })
                (to_size fd) (some y),
          )
    ]

-- `selector_new`, or a null pointer; `alloc` is whether each of its allocations succeeds.
unfoldable pub selector_new : Bool → ℕ → Option Selector
unfolding ensure_capacity
selector_new alloc initial_elements =
    let (t, s) =
      ensure_capacity alloc
        (record { fds = []; max_fd = 0; master_r = λ _. false; master_w = λ _. false })
        initial_elements in
    elim t [ selector_success ↦ some s | _ ↦ none ]
