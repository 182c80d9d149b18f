-- ===== src/Selector/Full.antt =====
-- The table of src/selector.c as src/main.c makes it.
use tpe_socks.Prelude.{
  ℕ, ◌+◌, ◌<◌, ◌≡◌, Bool, true, ◌||◌, none, some, arith, length, length-set, ltb, Option-cases, inl,
  inr, get_elem?, replicate, refl, false,
}
use tpe_socks.Prelude.Int.{pos}
use tpe_socks.Selector.{
  ensure_capacity, selector_new, next_capacity, bits, Status, Item, Selector, items_max_size,
  selector_register, register_grown, put_item,
}
use tpe_socks.Selector.Inv.{slot-replicate, IsValid}
use tpe_socks.Selector.Register.{Registered, selector_register_lem}

-- `INITIAL_N` of src/main.c.
abbrev pub initial_n : ℕ
initial_n = 1023

-- A valid table of the greatest size.
pub record IsFull (s : Selector) : Type 0 where
  pub valid : IsValid s
  pub size : length s.fds ≡ items_max_size + 1

-- A table of 1025 items, of which none is in use.
abbrev pub start_table : Selector
start_table = record {
  fds = replicate 1025 none;
  max_fd = 0;
  master_r = λ _. false;
  master_w = λ _. false;
}

pub start_table-IsFull : IsFull start_table
start_table-IsFull = record {
  valid = record {
    highest_in = omega arith;
    highest = λ i u. absurd (ground (arith, slot-replicate 1025 i));
    reads = λ i. ground (arith, slot-replicate 1025 i);
    writes = λ i. ground (arith, slot-replicate 1025 i);
    bounded = omega arith;
  };
  size = refl;
}

-- This is the table that the program starts with.
pub selector_new-start : selector_new true initial_n ≡ some start_table
unfolding selector_new ensure_capacity next_capacity bits
selector_new-start = refl

put_item-size :
    (s : Selector) (fd : ℕ) (item : Item) (r : Status × Selector)
    → put_item s fd item ≡ some r
    → length r.1.fds ≡ length s.fds
unfolding put_item
put_item-size s fd item r e = elim (Option-cases (get_elem? s.fds fd)) [
  | inl f ↦ ground arith
  | inr (none, f) ↦ ground (arith, length-set s.fds fd (some item))
  | inr (some y, f) ↦ ground arith
]

-- A full table takes every descriptor that the platform has, without memory and without moving: the
-- registration succeeds, or the descriptor is in use already; the table stays full.
pub selector_register-IsFull :
    (alloc : Bool) (s : Selector) (fd : ℕ) (item : Item)
    → IsFull s
    → fd < items_max_size
    → (r : Status × Selector) × (selector_register alloc s (pos fd) item ≡ some r)
      × Registered s fd item true r
      × IsFull r.1
unfolding selector_register register_grown
selector_register-IsFull alloc s fd item f b =
    let (r, e, reg) = selector_register_lem alloc s fd item f.valid b (omega (arith, f.size)) in
    let room : (alloc || ltb fd (length s.fds)) ≡ true = ground (arith, f.size) in
    let direct : put_item s fd item ≡ some r = ground (arith, f.size, e) in
    (
      r,
      e,
      record {
        status_given = ground (arith, reg.status_given, room);
        valid = reg.valid;
        slots = reg.slots;
      },
      record { valid = reg.valid; size = omega (arith, f.size, put_item-size s fd item r direct) },
    )
