-- ===== src/Selector/Register.antt =====
-- Registration in the table of src/selector.c, which may have to grow for it.
use tpe_socks.Prelude.{
  ℕ, ◌-◌, ◌≤◌, ◌<◌, ◌≡◌, ◌≢◌, refl, sym, subst, Bool, true, false, ◌&&◌, ◌||◌, Option, none, some,
  ◌++◌, arith, length, length-append, length-replicate, Bool-cases, Option-cases, inl, inr, ltb,
  ◌==◌, if◌then◌else◌, replicate,
}
use tpe_socks.Prelude.Int.{pos}
use tpe_socks.Selector.{
  Status, selector_success, selector_enomem, selector_fdinuse, Item, Selector, items_max_size,
  next_capacity, ensure_capacity, is_used, put_item, selector_register, selector_new,
  register_grown,
}
use tpe_socks.Selector.Capacity.{next_capacity_bounds}
use tpe_socks.Selector.Highest.{slot}
use tpe_socks.Selector.Inv.{
  IsValid, changed, changed-IsValid, slot-set, slot-append, slot-replicate, get_elem?-slot,
  get_elem?_out,
}

abbrev unused : Option Item
unused = none

-- The table that `ensure_capacity` leaves when it has to grow for `fd`.
grown : Selector → ℕ → Selector
grown s fd = record s { fds = s.fds ++ replicate (next_capacity fd - length s.fds) none }

length-grown :
    (s : Selector) (fd : ℕ)
    → length s.fds < fd
    → fd < items_max_size
    → length (grown s fd).fds ≡ next_capacity fd
unfolding grown
length-grown s fd h m = omega (
  arith,
  length-append s.fds (replicate (next_capacity fd - length s.fds) none),
  length-replicate (next_capacity fd - length s.fds) unused,
  next_capacity_bounds fd (omega arith),
)

grown-IsValid :
    (s : Selector) (fd : ℕ)
    → IsValid s
    → length s.fds < fd
    → fd < items_max_size
    → IsValid (grown s fd)
unfolding grown
grown-IsValid s fd v h m =
    let n = next_capacity fd - length s.fds in
    record {
      highest_in =
          omega (arith, length-grown s fd h m, next_capacity_bounds fd (omega arith), v.highest_in);
      highest = λ i u. ground (arith, slot-append s.fds n i, v.highest i);
      reads = λ i. ground (arith, slot-append s.fds n i, v.reads i);
      writes = λ i. ground (arith, slot-append s.fds n i, v.writes i);
      bounded = omega (arith, length-grown s fd h m, next_capacity_bounds fd (omega arith));
    }

-- Whether a descriptor is taken, and whether there was memory if the table had to grow.
abbrev pub register_status : Bool → Bool → Status
register_status false _ = selector_enomem
register_status true true = selector_fdinuse
register_status true false = selector_success

abbrev pub is_success : Status → Bool
is_success selector_success = true
is_success _ = false

-- What a registration of `item` for `fd` leaves.
pub record Registered (s : Selector) (fd : ℕ) (item : Item) (memory : Bool) (r : Status × Selector)
    : Type 0 where
  pub status_given : r.0 ≡ register_status memory (is_used (slot s.fds fd))
  pub valid : IsValid r.1
  pub slots :
      (i : ℕ) → slot r.1.fds i ≡ (if is_success r.0 && (i == fd) then some item else slot s.fds i)

put_item_lem :
    (s : Selector) (fd : ℕ) (item : Item)
    → IsValid s
    → fd < length s.fds
    → (r : Status × Selector) × (put_item s fd item ≡ some r) × Registered s fd item true r
unfolding put_item changed
put_item_lem s fd item v h =
    let e = get_elem?-slot s.fds fd h in
    elim (Option-cases (slot s.fds fd)) [
      | inr (x, u) ↦ (
        (selector_fdinuse, s),
        ground (arith, e, u),
        record { status_given = ground (arith, u); valid = v; slots = λ i. refl },
      )
      | inl u ↦
          let top = if ltb s.max_fd fd then fd else s.max_fd in
          (
            (selector_success, changed s fd (some item) top),
            ground (arith, e, u),
            record {
              status_given = ground (arith, u);
              valid =
                  changed-IsValid s fd (some item) top v h (ground (arith, v.highest_in))
                    (λ j q. ground (arith, slot-set s.fds fd j (some item) h, v.highest j));
              slots = λ j. ground (arith, slot-set s.fds fd j (some item) h);
            },
          )
    ]

-- A descriptor is registered with its item if it is not in use and the table holds it or can grow for
-- it; no other item changes, and the table stays valid. It must not be exactly the size of the table.
pub selector_register_lem :
    (alloc : Bool) (s : Selector) (fd : ℕ) (item : Item)
    → IsValid s
    → fd < items_max_size
    → fd ≢ length s.fds
    → (r : Status × Selector) × (selector_register alloc s (pos fd) item ≡ some r)
      × Registered s fd item (alloc || ltb fd (length s.fds)) r
unfolding selector_register register_grown ensure_capacity grown
selector_register_lem alloc s fd item v m n = elim (Bool-cases (ltb (length s.fds) fd)) [
  | inr fits ↦
      let (r, e, p) = put_item_lem s fd item v (ground arith) in
      let room : (alloc || ltb fd (length s.fds)) ≡ true = ground arith in
      (r, ground (arith, e), subst (λ (m : Bool). Registered s fd item m r) (sym room) p)
  | inl grows ↦ elim (Bool-cases alloc) [
    | inr no_memory ↦ (
      (selector_enomem, s),
      ground arith,
      record { status_given = ground arith; valid = v; slots = λ i. refl },
    )
    | inl memory ↦
        let (r, e, p) =
          put_item_lem (grown s fd) fd item (grown-IsValid s fd v (ground arith) m)
            (ground (arith, length-grown s fd, next_capacity_bounds fd)) in
        (
          r,
          ground (arith, e),
          record {
            status_given =
                ground
                  (arith, p.status_given, slot-append s.fds (next_capacity fd - length s.fds) fd);
            valid = p.valid;
            slots = λ i.
                ground (arith, p.slots i, slot-append s.fds (next_capacity fd - length s.fds) i);
          },
        )
  ]
]

-- A descriptor that is exactly the size of the table is looked up behind its end.
pub selector_register_out_of_bounds :
    (alloc : Bool) (s : Selector) (item : Item)
    → length s.fds < items_max_size
    → selector_register alloc s (pos (length s.fds)) item ≡ none
unfolding selector_register register_grown put_item
selector_register_out_of_bounds alloc s item m =
    ground (arith, get_elem?_out s.fds (length s.fds) (omega arith))

-- A new table for at most 1024 descriptors, if there is memory for it, is valid, has more items than
-- were asked for, and none of them is in use.
pub selector_new_lem :
    (n : ℕ)
    → n ≤ items_max_size
    → (s : Selector) × (selector_new true n ≡ some s)
      × IsValid s
      × (n < length s.fds)
      × ((i : ℕ) → slot s.fds i ≡ none)
unfolding selector_new ensure_capacity
selector_new_lem n h =
    let k = next_capacity n in
    let long : length (replicate k unused) ≡ k = length-replicate k unused in
    let first : ltb n 0 ≡ false = ground arith in
    let room : ltb items_max_size n ≡ false = ground arith in
    let rest : k - 0 ≡ k = omega arith in
    (
      record { fds = replicate k unused; max_fd = 0; master_r = λ _. false; master_w = λ _. false },
      ground (arith, first, room, rest),
      record {
        highest_in = omega (arith, long, next_capacity_bounds n h);
        highest = λ i u. absurd (ground (arith, slot-replicate k i));
        reads = λ i. ground (arith, slot-replicate k i);
        writes = λ i. ground (arith, slot-replicate k i);
        bounded = omega (arith, long, next_capacity_bounds n h);
      },
      omega (arith, long, next_capacity_bounds n h),
      slot-replicate k,
    )
