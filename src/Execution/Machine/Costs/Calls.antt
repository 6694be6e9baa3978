-- ===== src/Execution/Machine/Costs/Calls.antt =====
-- What the calls of the machine cost.
use the_open_network_x.Prelude.{
  ℕ, zero, suc, ◌+◌, ◌≤◌, ◌≡◌, refl, List, [], ◌∷◌, length, leb, ltb, arith, Option-cases,
  Bool-cases, inl, inr,
}
use the_open_network_x.Prelude.Int.{ℤ}
use the_open_network_x.Prelude.Words.{u64_max, saturating_add}
use the_open_network_x.Execution.Types.{
  StackValue, integer, bytes_value, cell_value, slice_value, builder_value, type_mismatch,
}
use the_open_network_x.Execution.Machine.{
  Interpreter, pure, ◌>>=◌, consume_gas, pop, pop_from, push, as_integer, as_bytes, as_cell,
  as_slice, as_builder, pop_integer, pop_bytes, pop_cell, pop_slice, pop_builder, read_uint8,
  read_uint16, read_bytes_exact, jump_relative, within_code, moved, code_bits, max_stack_depth,
}
use the_open_network_x.Execution.Machine.Costs.{
  IsWithin, IsAfter, IsAfter-refl, Costs, Costs-pure, Costs-raise, Costs-panic, Costs-gets,
  Costs-from_option, Costs-from_result, Costs-check, Costs-if, Costs-weaken, bind_free, bind_charge,
  bind_later, bind_owing, bind_owed, bind_debt, bind_paid,
}

-- A call that changes the stack only, and keeps its bound.
pub IsAfter-stack :
    (s : Interpreter) (stack : List StackValue)
    → IsWithin s
    → length stack ≤ max_stack_depth
    → IsAfter s (record s { stack = stack })
IsAfter-stack s stack h fits = record {
  within = record { gas_fits = h.gas_fits; limit_fits = h.limit_fits; stack_fits = fits };
  limit_same = refl;
  gas_grows = omega arith;
  handler_same = refl;
  data_same = refl;
  messages_same = refl;
}

IsAfter-gas :
    (s : Interpreter) (gas : ℕ)
    → IsWithin s
    → s.gas_used ≤ gas
    → gas ≤ s.gas_limit
    → IsAfter s (record s { gas_used = gas })
IsAfter-gas s gas h grows fits = record {
  within = record { gas_fits = fits; limit_fits = h.limit_fits; stack_fits = h.stack_fits };
  limit_same = refl;
  gas_grows = grows;
  handler_same = refl;
  data_same = refl;
  messages_same = refl;
}

IsAfter-pc : (s : Interpreter) (pc : ℕ) → IsWithin s → IsAfter s (record s { pc_bits = pc })
IsAfter-pc s pc h = record {
  within = record { gas_fits = h.gas_fits; limit_fits = h.limit_fits; stack_fits = h.stack_fits };
  limit_same = refl;
  gas_grows = omega arith;
  handler_same = refl;
  data_same = refl;
  messages_same = refl;
}

consume_gas-IsAfter :
    (amount : ℕ) (s : Interpreter) → IsWithin s → IsAfter s (consume_gas amount s).1
unfolding consume_gas
consume_gas-IsAfter amount s h =
    let new_gas = saturating_add u64_max s.gas_used amount in
    elim (Bool-cases (ltb s.gas_limit new_gas)) [
      | inl over ↦ rw over (IsAfter-gas s s.gas_limit h h.gas_fits (omega arith))
      | inr within ↦ rw within (
          IsAfter-gas s new_gas h (let l = h.limit_fits in let g = h.gas_fits in ground arith)
            (ground arith))
    ]

pub Costs-consume_gas : (amount : ℕ) → 1 ≤ amount → Costs 2 0 (consume_gas amount)
unfolding consume_gas
Costs-consume_gas amount charged = record {
  after = consume_gas-IsAfter amount;
  gain = λ s h r. let l = h.limit_fits in let g = h.gas_fits in ground (arith, charged);
}

pop_from-IsAfter :
    (stack : List StackValue) (s : Interpreter)
    → IsWithin s
    → length stack ≤ max_stack_depth
    → IsAfter s (pop_from stack s).1
pop_from-IsAfter [] s h fits = IsAfter-refl s h
pop_from-IsAfter (value ∷ stack) s h fits = IsAfter-stack s stack h (omega (arith, fits))

pop_from_gain :
    (stack : List StackValue) (s : Interpreter)
    → (length (pop_from stack s).1.call_stack ≡ length s.call_stack)
      × ((pop_from stack s).1.gas_used ≡ s.gas_used)
pop_from_gain [] s = (refl, refl)
pop_from_gain (value ∷ stack) s = (refl, refl)

pub Costs-pop : Costs 0 0 pop
unfolding pop
Costs-pop = record {
  after = λ s h. pop_from-IsAfter s.stack s h h.stack_fits;
  gain = λ s h r. let same = pop_from_gain s.stack s in omega (arith, same);
}

push-IsAfter : (value : StackValue) (s : Interpreter) → IsWithin s → IsAfter s (push value s).1
unfolding push
push-IsAfter value s h = elim (Bool-cases (leb max_stack_depth (length s.stack))) [
  | inl full ↦ rw full (IsAfter-stack s s.stack h h.stack_fits)
  | inr room ↦ rw room (IsAfter-stack s (value ∷ s.stack) h (ground arith))
]

pub Costs-push : (value : StackValue) → Costs 0 0 (push value)
unfolding push
Costs-push value = record { after = push-IsAfter value; gain = λ s h r. ground arith }

Costs-as_integer : (value : StackValue) → Costs 0 0 (as_integer value)
Costs-as_integer (integer bytes) = Costs-pure bytes
Costs-as_integer (bytes_value bytes) = Costs-raise 0 0 type_mismatch
Costs-as_integer (cell_value cell) = Costs-raise 0 0 type_mismatch
Costs-as_integer (slice_value slice) = Costs-raise 0 0 type_mismatch
Costs-as_integer (builder_value builder) = Costs-raise 0 0 type_mismatch

Costs-as_bytes : (value : StackValue) → Costs 0 0 (as_bytes value)
Costs-as_bytes (bytes_value bytes) = Costs-pure bytes
Costs-as_bytes (integer bytes) = Costs-raise 0 0 type_mismatch
Costs-as_bytes (cell_value cell) = Costs-raise 0 0 type_mismatch
Costs-as_bytes (slice_value slice) = Costs-raise 0 0 type_mismatch
Costs-as_bytes (builder_value builder) = Costs-raise 0 0 type_mismatch

Costs-as_cell : (value : StackValue) → Costs 0 0 (as_cell value)
Costs-as_cell (cell_value cell) = Costs-pure cell
Costs-as_cell (integer bytes) = Costs-raise 0 0 type_mismatch
Costs-as_cell (bytes_value bytes) = Costs-raise 0 0 type_mismatch
Costs-as_cell (slice_value slice) = Costs-raise 0 0 type_mismatch
Costs-as_cell (builder_value builder) = Costs-raise 0 0 type_mismatch

Costs-as_slice : (value : StackValue) → Costs 0 0 (as_slice value)
Costs-as_slice (slice_value slice) = Costs-pure slice
Costs-as_slice (integer bytes) = Costs-raise 0 0 type_mismatch
Costs-as_slice (bytes_value bytes) = Costs-raise 0 0 type_mismatch
Costs-as_slice (cell_value cell) = Costs-raise 0 0 type_mismatch
Costs-as_slice (builder_value builder) = Costs-raise 0 0 type_mismatch

Costs-as_builder : (value : StackValue) → Costs 0 0 (as_builder value)
Costs-as_builder (builder_value builder) = Costs-pure builder
Costs-as_builder (integer bytes) = Costs-raise 0 0 type_mismatch
Costs-as_builder (bytes_value bytes) = Costs-raise 0 0 type_mismatch
Costs-as_builder (cell_value cell) = Costs-raise 0 0 type_mismatch
Costs-as_builder (slice_value slice) = Costs-raise 0 0 type_mismatch

pub Costs-pop_integer : Costs 0 0 pop_integer
unfolding pop_integer
Costs-pop_integer = bind_free pop as_integer Costs-pop Costs-as_integer

pub Costs-pop_bytes : Costs 0 0 pop_bytes
unfolding pop_bytes
Costs-pop_bytes = bind_free pop as_bytes Costs-pop Costs-as_bytes

pub Costs-pop_cell : Costs 0 0 pop_cell
unfolding pop_cell
Costs-pop_cell = bind_free pop as_cell Costs-pop Costs-as_cell

pub Costs-pop_slice : Costs 0 0 pop_slice
unfolding pop_slice
Costs-pop_slice = bind_free pop as_slice Costs-pop Costs-as_slice

pub Costs-pop_builder : Costs 0 0 pop_builder
unfolding pop_builder
Costs-pop_builder = bind_free pop as_builder Costs-pop Costs-as_builder

read_uint8-IsAfter : (s : Interpreter) → IsWithin s → IsAfter s (read_uint8 s).1
unfolding read_uint8
read_uint8-IsAfter s h = elim (Bool-cases (ltb (code_bits s) (s.pc_bits + 8))) [
  | inl past ↦ rw past (IsAfter-pc s s.pc_bits h)
  | inr inside ↦ rw inside (IsAfter-pc s (s.pc_bits + 8) h)
]

pub Costs-read_uint8 : Costs 0 0 read_uint8
unfolding read_uint8
Costs-read_uint8 = record { after = read_uint8-IsAfter; gain = λ s h r. ground arith }

pub Costs-read_uint16 : Costs 0 0 read_uint16
unfolding read_uint16
Costs-read_uint16 = search (bind_free, Costs-read_uint8, Costs-pure)

pub Costs-read_bytes_exact : (len : ℕ) → Costs 0 0 (read_bytes_exact len)
unfolding read_bytes_exact
Costs-read_bytes_exact zero = Costs-pure []
Costs-read_bytes_exact (suc len) =
    bind_free read_uint8 (λ byte. do rest ← read_bytes_exact len; pure (byte ∷ rest))
      Costs-read_uint8
      λ byte.
        bind_free (read_bytes_exact len) (λ rest. pure (byte ∷ rest)) (Costs-read_bytes_exact len)
          λ rest. Costs-pure (byte ∷ rest)

jump_relative-IsAfter :
    (offset : ℤ) (s : Interpreter) → IsWithin s → IsAfter s (jump_relative offset s).1
unfolding jump_relative
jump_relative-IsAfter offset s h =
    elim (Option-cases (within_code (code_bits s) (moved s.pc_bits offset))) [
      | inl outside ↦ rw (jump_relative, outside) (IsAfter-refl s h)
      | inr (pc, inside) ↦ rw (jump_relative, inside) (IsAfter-pc s pc h)
    ]

pub Costs-jump_relative : (offset : ℤ) → Costs 0 0 (jump_relative offset)
unfolding jump_relative
Costs-jump_relative offset = record {
  after = jump_relative-IsAfter offset;
  gain = λ s h r. ground arith;
}

-- The rules that build a block of calls out of its calls.
pub ruleset free_rules = (
  bind_free, Costs-pure, Costs-gets, Costs-from_option, Costs-from_result, Costs-check, Costs-if,
  Costs-pop, Costs-push, Costs-pop_integer, Costs-pop_bytes, Costs-pop_cell, Costs-pop_slice,
  Costs-pop_builder, Costs-read_uint8, Costs-read_uint16, Costs-read_bytes_exact,
  Costs-jump_relative,
)

-- The charges of the instructions.
pub charge_1 : Costs 2 0 (consume_gas 1)
charge_1 = Costs-consume_gas 1 (omega arith)

pub charge_4 : Costs 2 0 (consume_gas 4)
charge_4 = Costs-consume_gas 4 (omega arith)

pub charge_8 : Costs 2 0 (consume_gas 8)
charge_8 = Costs-consume_gas 8 (omega arith)

pub charge_10 : Costs 2 0 (consume_gas 10)
charge_10 = Costs-consume_gas 10 (omega arith)

pub charge_200 : Costs 2 0 (consume_gas 200)
charge_200 = Costs-consume_gas 200 (omega arith)

pub charge_4000 : Costs 2 0 (consume_gas 4000)
charge_4000 = Costs-consume_gas 4000 (omega arith)

pub charge_1_more : (n : ℕ) → Costs 2 0 (consume_gas (1 + n))
charge_1_more n = Costs-consume_gas (1 + n) (omega arith)

pub charge_4_more : (n : ℕ) → Costs 2 0 (consume_gas (4 + n))
charge_4_more n = Costs-consume_gas (4 + n) (omega arith)

pub charge_10_more : (n : ℕ) → Costs 2 0 (consume_gas (10 + n))
charge_10_more n = Costs-consume_gas (10 + n) (omega arith)

pub ruleset cost_rules = (
  free_rules, bind_charge, bind_later, bind_paid, charge_1, charge_4, charge_8, charge_10,
  charge_200, charge_4000, charge_1_more, charge_4_more, charge_10_more, Costs-raise, Costs-panic,
)
