-- ===== src/Selector/Inv.antt =====
-- The invariant of the table of src/selector.c, and what its operations do to it.
use tpe_socks.Prelude.{
  ℕ, zero, suc, ◌+◌, ◌≤◌, ◌<◌, ◌≡◌, refl, Bool, true, ◌&&◌, Option, none, some, List, [], ◌∷◌, ◌++◌,
  arith, length, length-set, ◌==◌, if◌then◌else◌, get_elem?, set, replicate,
}
use tpe_socks.Prelude.Int.{pos}
use tpe_socks.Selector.{
  selector_success, Interest, Item, Selector, items_max_size, is_used, wants_read, wants_write,
  items_max_fd, selector_unregister_fd, selector_set_interest, items_update_fdset_for_fd,
}
use tpe_socks.Selector.Highest.{slot, max_from_above, max_from_below}

-- The highest descriptor in use bounds all others and lies in the table, and the two sets hold exactly
-- the descriptors whose item wants to read or to write.
pub record IsValid (s : Selector) : Type 0 where
  pub highest_in : s.max_fd < length s.fds
  pub highest : (i : ℕ) → is_used (slot s.fds i) ≡ true → i ≤ s.max_fd
  pub reads : (i : ℕ) → s.master_r i ≡ wants_read (slot s.fds i)
  pub writes : (i : ℕ) → s.master_w i ≡ wants_write (slot s.fds i)
  pub bounded : length s.fds ≤ items_max_size + 1

pub get_elem?-slot :
    (xs : List (Option Item)) (i : ℕ) → i < length xs → get_elem? xs i ≡ some (slot xs i)
get_elem?-slot [] i h = absurd (omega arith)
get_elem?-slot (x ∷ xs) zero h = refl
get_elem?-slot (x ∷ xs) (suc i) h = get_elem?-slot xs i (omega arith)

pub get_elem?_out : (xs : List (Option Item)) (i : ℕ) → length xs ≤ i → get_elem? xs i ≡ none
get_elem?_out [] i h = refl
get_elem?_out (x ∷ xs) zero h = absurd (omega arith)
get_elem?_out (x ∷ xs) (suc i) h = get_elem?_out xs i (omega arith)

pub slot-replicate : (n i : ℕ) → slot (replicate n none) i ≡ none
slot-replicate zero i = refl
slot-replicate (suc n) zero = refl
slot-replicate (suc n) (suc i) = slot-replicate n i

pub slot-append : (xs : List (Option Item)) (n i : ℕ) → slot (xs ++ replicate n none) i ≡ slot xs i
slot-append [] n i = slot-replicate n i
slot-append (x ∷ xs) n zero = refl
slot-append (x ∷ xs) n (suc i) = slot-append xs n i

pub slot-set :
    (xs : List (Option Item)) (i j : ℕ) (v : Option Item)
    → i < length xs
    → slot (set xs i v) j ≡ (if j == i then v else slot xs j)
slot-set [] i j v h = absurd (omega arith)
slot-set (x ∷ xs) zero zero v h = ground arith
slot-set (x ∷ xs) zero (suc j) v h = ground arith
slot-set (x ∷ xs) (suc i) zero v h = ground arith
slot-set (x ∷ xs) (suc i) (suc j) v h = ground (arith, slot-set xs i j v)

-- One item replaced, and its descriptor's flags with it.
unfoldable pub changed : Selector → ℕ → Option Item → ℕ → Selector
unfolding items_update_fdset_for_fd
changed s fd item highest =
    items_update_fdset_for_fd (record s { fds = set s.fds fd item; max_fd = highest }) fd item

pub changed-IsValid :
    (s : Selector) (fd : ℕ) (item : Option Item) (top : ℕ)
    → IsValid s
    → fd < length s.fds
    → top < length s.fds
    → ((i : ℕ) → is_used (slot (set s.fds fd item) i) ≡ true → i ≤ top)
    → IsValid (changed s fd item top)
unfolding changed
changed-IsValid s fd item top v h k above = record {
  highest_in = omega (arith, length-set s.fds fd item);
  highest = above;
  reads = λ i. ground (arith, slot-set s.fds fd i item h, v.reads i);
  writes = λ i. ground (arith, slot-set s.fds fd i item h, v.writes i);
  bounded = omega (arith, length-set s.fds fd item, v.bounded);
}

-- What a call that returns leaves: a valid table of the same size in which only `fd` may differ.
pub record Leaves (s : Selector) (fd : ℕ) (item : Option Item) (t : Selector) : Type 0 where
  pub valid : IsValid t
  pub slots : (i : ℕ) → slot t.fds i ≡ (if i == fd then item else slot s.fds i)
  pub size : length t.fds ≡ length s.fds

-- A descriptor in the table that is in use stops waiting for what it waited for, and waits for the
-- new interest; no other item changes.
pub selector_set_interest_lem :
    (s : Selector) (fd : ℕ) (x : Item) (i : Interest)
    → IsValid s
    → fd < items_max_size
    → fd < length s.fds
    → slot s.fds fd ≡ some x
    → (t : Selector) × (selector_set_interest s (pos fd) i ≡ some (selector_success, t))
      × Leaves s fd (some (record x { interest = i })) t
unfolding selector_set_interest changed
selector_set_interest_lem s fd x i v m h u =
    let y = record x { interest = i } in
    let e = get_elem?-slot s.fds fd h in
    (
      changed s fd (some y) s.max_fd,
      ground (arith, e, u),
      record {
        valid =
            changed-IsValid s fd (some y) s.max_fd v h v.highest_in
              (λ j q. ground (arith, slot-set s.fds fd j (some y) h, v.highest j, v.highest fd));
        slots = λ j. slot-set s.fds fd j (some y) h;
        size = length-set s.fds fd (some y);
      },
    )

-- A descriptor in the table that is in use is taken out; no other item changes; its handler is told
-- only if it handles a close and the caller asks for it.
pub selector_unregister_fd_lem :
    (s : Selector) (fd : ℕ) (x : Item) (use_close : Bool)
    → IsValid s
    → fd < items_max_size
    → fd < length s.fds
    → slot s.fds fd ≡ some x
    → (t : Selector) × (selector_unregister_fd s (pos fd) use_close
        ≡ some (selector_success, t, (if x.handler.has_close && use_close then some x else none)))
      × Leaves s fd none t
unfolding selector_unregister_fd changed items_max_fd
selector_unregister_fd_lem s fd x use_close v m h u =
    let e = get_elem?-slot s.fds fd h in
    let top = items_max_fd (record s { fds = set s.fds fd none }) in
    (
      changed s fd none top,
      ground (arith, e, u),
      record {
        valid =
            changed-IsValid s fd none top v h
              (max_from_below (set s.fds fd none) 0 s.max_fd 0 (length s.fds)
                (omega (arith, v.highest_in)) (omega (arith, length-set s.fds fd none)))
              (λ j q.
                let below : j ≤ s.max_fd =
                  ground (arith, slot-set s.fds fd j none h, v.highest j) in
                omega (arith, max_from_above (set s.fds fd none) 0 s.max_fd 0 j q (omega arith)));
        slots = λ j. slot-set s.fds fd j none h;
        size = length-set s.fds fd none;
      },
    )
