-- ===== src/Control/ConnList.antt =====
-- src/controlProtocol/controlProtocol.c: the list of the connections of the monitoring protocol.
--
-- A connection that was freed stays in the list as a block that must not be read any more. `none` is a
-- read or a store of such a block.
use tpe_socks.Prelude.{
  ℕ, ◌≡◌, refl, ap, ◌∙◌, Bool, true, false, not, ◌&&◌, ◌||◌, Option, none, some, List, [], ◌∷◌,
  ◌++◌, ◌==◌, if◌then◌else◌, ◌>>=◌, arith, Bool-cases, inl, inr,
}
use tpe_socks.Prelude.Int.{ℤ, pos, ◌+ℤ◌, ◌-ℤ◌}

-- A `controlProtConn` of the list: its descriptor, and whether the block was freed.
pub record Node : Type 0 where
  pub fd : ℕ
  pub freed : Bool

-- `struct cpConnList`.
pub record ConnList : Type 0 where
  pub size : ℤ
  pub conns : List Node

abbrev pub init_conn_list : ConnList
init_conn_list = record { size = pos 0; conns = [] }

-- Whether a walk over the whole list reads a freed block.
abbrev pub any_freed : List Node → Bool
any_freed [] = false
any_freed (x ∷ xs) = x.freed || any_freed xs

-- The first connection is not counted.
unfoldable pub put_last : Node → ℤ → List Node → Option ConnList
unfolding ◌+ℤ◌
put_last new size [] = some (record { size = size; conns = new ∷ [] })
put_last new size (x ∷ xs) =
    if any_freed (x ∷ xs)
    then none
    else some (record { size = size +ℤ pos 1; conns = (x ∷ xs) ++ new ∷ [] })

unfoldable pub add_to_list : Node → ConnList → Option ConnList
unfolding put_last
add_to_list new l = put_last new l.size l.conns

-- What is left of the list, and whether the connection was found.
unfoldable pub remove_rec : List Node → ℕ → Option (List Node × Bool)
remove_rec [] fd = some ([], false)
remove_rec (x ∷ xs) fd =
    let rest = remove_rec xs fd in
    if x.freed
    then none
    else if x.fd == fd
    then some (xs, true)
    else (rest >>= λ (ys, removed). some (x ∷ ys, removed))

unfoldable pub remove_from_list : ℕ → ConnList → Option ConnList
unfolding remove_rec ◌-ℤ◌
remove_from_list fd l = remove_rec l.conns fd >>= λ (conns, removed).
    some (record { size = if removed then l.size -ℤ pos 1 else l.size; conns = conns })

-- `free(cpc)` at the end of `freeControlProtConn`, which leaves the list as it is.
unfoldable pub free_node : ℕ → List Node → List Node
free_node fd [] = []
free_node fd (x ∷ xs) =
    let rest = free_node fd xs in
    if x.fd == fd && not x.freed then record x { freed = true } ∷ xs else x ∷ rest

unfoldable pub free_conn : ℕ → ConnList → ConnList
unfolding free_node
free_conn fd l = record l { conns = free_node fd l.conns }

-- A connection of the list that is not freed.
unfoldable pub is_open : ℕ → List Node → Bool
is_open fd [] = false
is_open fd (x ∷ xs) = (x.fd == fd && not x.freed) || is_open fd xs

free_node-freed :
    (fd : ℕ) (xs : List Node) → is_open fd xs ≡ true → any_freed (free_node fd xs) ≡ true
unfolding is_open free_node
free_node-freed fd [] h = cc
free_node-freed fd (x ∷ xs) h = elim (Bool-cases (x.fd == fd && not x.freed)) [
  | inl e ↦ rw e refl
  | inr e ↦ rw e (kept x (any_freed (free_node fd xs)) (free_node-freed fd xs (later e)))
]
  where
    later : (x.fd == fd && not x.freed) ≡ false → is_open fd xs ≡ true
    later e = ground (arith, h, e)

    kept : (x : Node) (b : Bool) → b ≡ true → (x.freed || b) ≡ true
    kept x b e = ground arith

put_last-freed :
    (new : Node) (size : ℤ) (xs : List Node) → any_freed xs ≡ true → put_last new size xs ≡ none
unfolding put_last
put_last-freed new size [] h = cc
put_last-freed new size (x ∷ xs) h = rw h refl

-- Once a connection has been freed and not taken out, the next one that is accepted cannot be put into
-- the list: the walk to its end reads the freed block.
pub add_to_list-freed :
    (fd : ℕ) (l : ConnList) (new : Node)
    → is_open fd l.conns ≡ true
    → add_to_list new (free_conn fd l) ≡ none
unfolding add_to_list free_conn
add_to_list-freed fd l new h =
    put_last-freed new l.size (free_node fd l.conns) (free_node-freed fd l.conns h)

abbrev pub live : ℕ → Node
live fd = record { fd = fd; freed = false }

is_open-last : (fd : ℕ) (xs : List Node) → is_open fd (xs ++ live fd ∷ []) ≡ true
unfolding is_open
is_open-last fd [] = ground arith
is_open-last fd (x ∷ xs) = ground (arith, is_open-last fd xs)

put_last-open :
    (fd : ℕ) (size : ℤ) (xs : List Node)
    → any_freed xs ≡ false
    → (l : ConnList) × (put_last (live fd) size xs ≡ some l) × (l.conns ≡ xs ++ live fd ∷ [])
unfolding put_last
put_last-open fd size [] h = (record { size = size; conns = live fd ∷ [] }, refl, refl)
put_last-open fd size (x ∷ xs) h =
    (record { size = size +ℤ pos 1; conns = (x ∷ xs) ++ live fd ∷ [] }, rw h refl, refl)

-- Where a connection is put into a list without freed ones, it is open in the list, behind all others.
pub add_to_list-open :
    (fd : ℕ) (l : ConnList)
    → any_freed l.conns ≡ false
    → (l' : ConnList) × (add_to_list (live fd) l ≡ some l')
      × (l'.conns ≡ l.conns ++ live fd ∷ [])
      × (is_open fd l'.conns ≡ true)
unfolding add_to_list
add_to_list-open fd l h =
    let (l', e, c) = put_last-open fd l.size l.conns h in
    (l', e, c, ap (is_open fd) c ∙ is_open-last fd l.conns)
