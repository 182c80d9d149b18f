-- ===== src/Stm.antt =====
-- src/stm.c and src/include/stm.h: the engine of the state machines.
--
-- A handler acts on a key, of any type, and may fault. The pointer to the current state is its index in
-- the table. `none` is a fault or a call of `abort`.
use tpe_socks.Prelude.{
  ℕ, zero, suc, ◌+◌, ◌≤◌, ◌<◌, ◌≡◌, refl, fun_ext, ◌∙◌, ap, Bool, true, false, Option, some, none,
  List, ◌>>=◌, arith, ltb, ◌==◌, if◌then◌else◌, get_elem?, Bool-cases, Option-cases, inl, inr,
}

-- `struct state_definition`: a null pointer is `none`.
pub record StateDefinition (K : Type 0) : Type 0 where
  pub state : ℕ
  pub on_arrival : Option (ℕ → K → Option K)
  pub on_departure : Option (ℕ → K → Option K)
  pub on_read_ready : Option (K → Option (ℕ × K))
  pub on_write_ready : Option (K → Option (ℕ × K))
  pub on_block_ready : Option (K → Option (ℕ × K))

-- `struct state_machine`.
pub record StateMachine (K : Type 0) : Type 0 where
  pub initial : ℕ
  pub states : List (StateDefinition K)
  pub max_state : ℕ
  pub current : Option ℕ

abbrev is_current : Option ℕ → ℕ → Bool
is_current none next = false
is_current (some i) next = i == next

bind_some :
    {A B : Type 0} → (m : Option A) (f : A → Option B) (a : A) → m ≡ some a → (m >>= f) ≡ f a
bind_some m f a h = ap (λ z. z >>= f) h

module _ {K : Type 0} where
  -- The loop of `stm_init` from index `i` on, for `n` more states.
  unfoldable pub checked : List (StateDefinition K) → ℕ → ℕ → Bool
  checked states i zero = true
  checked states i (suc n) =
      let rest = checked states (suc i) n in
      elim (get_elem? states i) [ none ↦ false | some d ↦ if i == d.state then rest else false ]

  unfoldable pub stm_init : StateMachine K → Option (StateMachine K)
  unfolding checked
  stm_init stm =
      if checked stm.states 0 (suc stm.max_state)
      then (if ltb stm.initial stm.max_state then some (record stm { current = none }) else none)
      else none

  -- A callback that may be absent.
  unfoldable pub called : Option (ℕ → K → Option K) → ℕ → K → Option K
  called none state k = some k
  called (some f) state k = f state k

  -- The state at an index is arrived at.
  arrive : StateMachine K → ℕ → K → Option (StateMachine K × K)
  arrive stm i k = get_elem? stm.states i >>= λ d.
      called d.on_arrival d.state k >>= λ k'. some (record stm { current = some i }, k')

  handle_first : StateMachine K → K → Option (StateMachine K × K)
  handle_first stm k = elim stm.current [ none ↦ arrive stm stm.initial k | some i ↦ some (stm, k) ]

  -- `on_departure` of the state at an index.
  depart_from : Option ℕ → StateMachine K → K → Option K
  depart_from none stm k = some k
  depart_from (some i) stm k = get_elem? stm.states i >>= λ d. called d.on_departure d.state k

  depart : StateMachine K → K → Option K
  depart stm k = depart_from stm.current stm k

  pub jump : StateMachine K → ℕ → K → Option (StateMachine K × K)
  jump stm next k =
      if ltb stm.max_state next
      then none
      else (let moved = (depart stm k >>= λ k'. arrive stm next k') in
          if is_current stm.current next then some (stm, k) else moved)

  -- The common body of the three handlers below, for the callback that `on` selects.
  pub handle :
      (StateDefinition K → Option (K → Option (ℕ × K)))
      → StateMachine K
      → K
      → Option (ℕ × StateMachine K × K)
  handle on stm k = handle_first stm k >>= λ (stm', k'). stm'.current >>= λ i.
      get_elem? stm'.states i >>= λ d. on d >>= λ f.
      f k' >>= λ (ret, k''). jump stm' ret k'' >>= λ (stm'', k3). some (ret, stm'', k3)

  unfoldable pub stm_handler_read : StateMachine K → K → Option (ℕ × StateMachine K × K)
  stm_handler_read stm k = handle (λ d. d.on_read_ready) stm k

  unfoldable pub stm_handler_write : StateMachine K → K → Option (ℕ × StateMachine K × K)
  stm_handler_write stm k = handle (λ d. d.on_write_ready) stm k

  unfoldable pub stm_handler_block : StateMachine K → K → Option (ℕ × StateMachine K × K)
  stm_handler_block stm k = handle (λ d. d.on_block_ready) stm k

  unfoldable stm_handler_close : StateMachine K → K → Option K
  stm_handler_close stm k = depart stm k

  unfoldable stm_state : StateMachine K → Option ℕ
  stm_state stm = elim stm.current [
    | none ↦ some stm.initial
    | some i ↦ get_elem? stm.states i >>= λ d. some d.state
  ]

  -- What `stm_init` checks: the state at an index is that of the index.
  checked_lem :
      (states : List (StateDefinition K)) (i n j : ℕ)
      → checked states i n ≡ true
      → i ≤ j
      → j < i + n
      → (d : StateDefinition K) × (get_elem? states j ≡ some d) × (d.state ≡ j)
  unfolding checked
  checked_lem states i zero j h p q = absurd (omega arith)
  checked_lem states i (suc n) j h p q = elim (Option-cases (get_elem? states i)) [
    | inl e ↦ absurd (ground (arith, e))
    | inr (d, e) ↦ elim (Bool-cases (i == j)) [
      | inl t ↦ (d, ground (arith, e), ground (arith, e))
      | inr f ↦ checked_lem states (suc i) n j (ground (arith, e)) (ground arith) (omega arith)
    ]
  ]

  -- A machine between two events.
  pub record IsRunning (stm : StateMachine K) : Type 0 where
    pub in_order : checked stm.states 0 (suc stm.max_state) ≡ true
    pub starts : stm.initial < stm.max_state
    pub within : (i : ℕ) → stm.current ≡ some i → i ≤ stm.max_state

  state_at :
      (stm : StateMachine K) (i : ℕ)
      → IsRunning stm
      → i ≤ stm.max_state
      → (d : StateDefinition K) × (get_elem? stm.states i ≡ some d) × (d.state ≡ i)
  state_at stm i r h =
      checked_lem stm.states 0 (suc stm.max_state) i r.in_order (omega arith) (omega arith)

  -- A move to another state: its departure, and then the arrival.
  pub jump_lem :
      (stm : StateMachine K) (i next : ℕ) (d e : StateDefinition K) (k : K)
      → stm.current ≡ some i
      → get_elem? stm.states i ≡ some d
      → get_elem? stm.states next ≡ some e
      → next ≤ stm.max_state
      → jump stm next k ≡ (
          if i == next
          then some (stm, k)
          else (called d.on_departure d.state k >>= λ k1. called e.on_arrival e.state k1 >>= λ k2.
              some (record stm { current = some next }, k2)))
  unfolding jump depart depart_from arrive
  jump_lem stm i next d e k h u v w =
      let small : ltb stm.max_state next ≡ false = ground arith in
      let same : is_current stm.current next ≡ (i == next) = ap (λ z. is_current z next) h in
      let left : depart stm k ≡ called d.on_departure d.state k =
        ap (λ z. depart_from z stm k) h
        ∙ bind_some (get_elem? stm.states i) (λ d. called d.on_departure d.state k) d u in
      let moved : (depart stm k >>= λ k1. arrive stm next k1) ≡ (
          called d.on_departure d.state k >>= λ k1.
          called e.on_arrival e.state k1 >>= λ k2. some (record stm { current = some next }, k2)) =
        ap (λ z. z >>= λ k1. arrive stm next k1) left
        ∙ ap (λ (f : K → Option (StateMachine K × K)). called d.on_departure d.state k >>= f)
            (fun_ext (λ k1. bind_some (get_elem? stm.states next) _ e v)) in
      rw (small, same) (ap (λ z. if i == next then some (stm, k) else z) moved)

  handled :
      (StateDefinition K → Option (K → Option (ℕ × K)))
      → Option ℕ
      → StateMachine K
      → K
      → Option (ℕ × StateMachine K × K)
  handled on c stm k = c >>= λ i. get_elem? stm.states i >>= λ d.
      on d >>= λ f. f k >>= λ (ret, k'). jump stm ret k' >>= λ (stm', k''). some (ret, stm', k'')

  first_lem :
      (stm : StateMachine K) (i : ℕ) (k : K)
      → stm.current ≡ some i
      → handle_first stm k ≡ some (stm, k)
  unfolding handle_first
  first_lem stm i k h = rw h refl

  -- One event in a state: the callback, the jump to the state that it names, and that state.
  pub handle_lem :
      (on : StateDefinition K → Option (K → Option (ℕ × K))) (stm : StateMachine K) (i next : ℕ)
      (d : StateDefinition K) (f : K → Option (ℕ × K)) (k k' : K)
      → stm.current ≡ some i
      → get_elem? stm.states i ≡ some d
      → on d ≡ some f
      → f k ≡ some (next, k')
      → handle on stm k ≡ (jump stm next k' >>= λ (stm', k''). some (next, stm', k''))
  unfolding handle handled
  handle_lem on stm i next d f k k' h u v w =
      ap (λ z. z >>= λ (stm', k1). handled on stm'.current stm' k1) (first_lem stm i k h)
      ∙ ap (λ z. handled on z stm k) h
      ∙ ap
          (λ z. z >>= λ d. on d >>= λ f.
            f k >>= λ (ret, k'). jump stm ret k' >>= λ (stm', k''). some (ret, stm', k''))
          u
      ∙ ap
          (λ z. z >>= λ f.
            f k >>= λ (ret, k'). jump stm ret k' >>= λ (stm', k''). some (ret, stm', k''))
          v
      ∙ ap (λ z. z >>= λ (ret, k'). jump stm ret k' >>= λ (stm', k''). some (ret, stm', k'')) w
