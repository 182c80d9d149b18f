-- ===== src/Selector/Highest.antt =====
-- The scan of src/selector.c for the highest descriptor in use.
use tpe_socks.Prelude.{
  ℕ, zero, suc, ◌+◌, ◌≤◌, ◌<◌, ◌≡◌, Bool, true, ◌&&◌, Option, none, List, [], ◌∷◌, arith, length,
  ltb, if◌then◌else◌, get_or,
}
use tpe_socks.Selector.{Item, is_used, max_from}

-- The item at an index, unused behind the table.
abbrev pub slot : List (Option Item) → ℕ → Option Item
slot xs i = get_or xs i none

best : Bool → ℕ → ℕ → ℕ
best used i max = if used && ltb max i then i else max

-- The maximum never gets smaller.
pub max_from_grows : (xs : List (Option Item)) (i last max : ℕ) → max ≤ max_from xs i last max
unfolding max_from
max_from_grows [] i last max = omega arith
max_from_grows (x ∷ xs) i last max =
    ground (arith, max_from_grows xs (suc i) last (if is_used x && ltb max i then i else max))

-- Every item in use up to `last` is at most the maximum.
pub max_from_above :
    (xs : List (Option Item)) (i last max j : ℕ)
    → is_used (slot xs j) ≡ true
    → i + j ≤ last
    → i + j ≤ max_from xs i last max
unfolding max_from
max_from_above [] i last max j u h = cc
max_from_above (x ∷ xs) i last max zero u h =
    ground (arith, max_from_grows xs (suc i) last (if is_used x && ltb max i then i else max))
max_from_above (x ∷ xs) i last max (suc j) u h = ground (
  arith,
  max_from_above xs (suc i) last (if is_used x && ltb max i then i else max) j u (omega arith),
)

-- The maximum is in the table.
pub max_from_below :
    (xs : List (Option Item)) (i last max n : ℕ)
    → max < n
    → i + length xs ≤ n
    → max_from xs i last max < n
unfolding max_from
max_from_below [] i last max n h k = h
max_from_below (x ∷ xs) i last max n h k = ground (
  arith,
  max_from_below xs (suc i) last (if is_used x && ltb max i then i else max) n (ground arith)
      (omega arith),
)
