-- ===== src/Execution/Instructions/Costs.antt =====
-- Every instruction costs gas, keeps the bound of the stack and opens at most the call that it has paid for.
pub mod Control
use the_open_network_x.Prelude.{
  ℕ, zero, suc, ◌+◌, ◌*◌, ◌≤◌, ◌≡◌, refl, ap, Bool, true, false, Option, none, some, List, [], ◌∷◌,
  ◌++◌, take, drop, take-append-drop, length, length-append, if◌then◌else◌, arith,
}
use the_open_network_x.Prelude.Int.{ℤ, pos, negsuc}
use the_open_network_x.Prelude.Int.Arith.{checked, quotient, remainder}
use the_open_network_x.Primitives.Error.{Bytes}
use the_open_network_x.Primitives.Hash.{Crypto}
use the_open_network_x.Execution.Types.{StackValue, ExceptionKind, i128_half, integer_overflow}
use the_open_network_x.Execution.Machine.{
  Interpreter, consume_gas, Exec, pure, ◌>>=◌, ◌>>◌, max_stack_depth,
}
use the_open_network_x.Execution.Machine.Costs.{
  IsWithin, IsAfter, Costs, Costs-pure, Costs-raise, Costs-panic, Costs-check, Costs-weaken,
  bind_free, bind_charge, bind_later, bind_owing, bind_owed, bind_debt, bind_paid,
}
use the_open_network_x.Execution.Machine.Costs.Calls.{
  IsAfter-stack, free_rules, cost_rules, Costs-consume_gas,
}
use the_open_network_x.Execution.Instructions.Stack.{
  StackOp, depth, value_at, without, remove_at, rotated, rotate, stack_instruction,
}
use the_open_network_x.Execution.Instructions.Arithmetic.{
  ArithmeticOp, pop_i128, push_i128, within_i128, arithmetic_head, extended_head, push_both,
  push_divmod, finish_extended, shift_amount, arithmetic_instruction,
}
use the_open_network_x.Execution.Instructions.Bytes.{BytesOp, push_part, bytes_instruction}
use the_open_network_x.Execution.Instructions.Hashes.{CryptoOp, crypto_instruction}
use the_open_network_x.Execution.Instructions.Cells.{CellOp, load_bits, cell_instruction}

Costs-depth : Costs 0 0 depth
unfolding depth
Costs-depth = search free_rules

Costs-value_at : (i : ℕ) → Costs 0 0 (value_at i)
unfolding value_at
Costs-value_at i = search free_rules

length-without : (i : ℕ) (stack : List StackValue) → length (without i stack) ≤ length stack
length-without i [] = omega arith
length-without zero (value ∷ stack) = omega arith
length-without (suc i) (value ∷ stack) = omega (arith, length-without i stack)

Costs-remove_at : (i : ℕ) → Costs 0 0 (remove_at i)
unfolding remove_at
Costs-remove_at i = record {
  after = λ s h.
      IsAfter-stack s (without i s.stack) h
        (let f = h.stack_fits in omega (arith, length-without i s.stack, f));
  gain = λ s h r. omega arith;
}

length-rotated :
    (left right : ℕ) (stack : List StackValue) → length (rotated left right stack) ≡ length stack
length-rotated left right stack =
    let block = take (left + right) stack in
    let rest = drop (left + right) stack in
    let whole = take-append-drop (left + right) stack in
    let parts = take-append-drop right block in
    omega (
      arith,
      length-append (drop right block ++ take right block) rest,
      length-append (drop right block) (take right block),
      length-append (take right block) (drop right block),
      length-append block rest,
      ap length whole,
      ap length parts,
    )

Costs-rotate : (left right : ℕ) → Costs 0 0 (rotate left right)
unfolding rotate
Costs-rotate left right = record {
  after = λ s h.
      IsAfter-stack s (rotated left right s.stack) h
        (let f = h.stack_fits in omega (arith, length-rotated left right s.stack, f));
  gain = λ s h r. omega arith;
}

ruleset stack_rules = (cost_rules, Costs-depth, Costs-value_at, Costs-remove_at, Costs-rotate)

pub Costs-stack_instruction : (op : StackOp) → Costs 1 0 (stack_instruction op)
unfolding stack_instruction
Costs-stack_instruction StackOp.nop =
    Costs-weaken 2 0 1 0 (consume_gas 1) (omega arith) (Costs-consume_gas 1 (omega arith))
Costs-stack_instruction StackOp.drop_top = search stack_rules depth 5
Costs-stack_instruction StackOp.dup = search stack_rules depth 5
Costs-stack_instruction StackOp.swap = search stack_rules depth 8
Costs-stack_instruction StackOp.over = search stack_rules depth 5
Costs-stack_instruction StackOp.rot = search stack_rules depth 10
Costs-stack_instruction StackOp.pick = search stack_rules depth 8
Costs-stack_instruction StackOp.roll = search stack_rules depth 8
Costs-stack_instruction StackOp.pushint = search stack_rules depth 8
Costs-stack_instruction StackOp.pushbytes = search stack_rules depth 8
Costs-stack_instruction StackOp.nip = search stack_rules depth 8
Costs-stack_instruction StackOp.tuck = search stack_rules depth 10
Costs-stack_instruction StackOp.blkswap = search stack_rules depth 8

Costs-pop_i128 : Costs 0 0 pop_i128
unfolding pop_i128
Costs-pop_i128 = search free_rules

Costs-push_i128 : (value : ℤ) → Costs 0 0 (push_i128 value)
unfolding push_i128
Costs-push_i128 value = search free_rules

Costs-within_i128 : (value : ℤ) → Costs 0 0 (within_i128 value)
unfolding within_i128
Costs-within_i128 value = search free_rules

Costs-arithmetic_head : (gas : ℕ) → Costs 2 0 (consume_gas gas) → Costs 1 0 (arithmetic_head gas)
unfolding arithmetic_head
Costs-arithmetic_head gas charged = search (free_rules, bind_charge) depth 8

Costs-extended_head : (gas : ℕ) → Costs 2 0 (consume_gas gas) → Costs 1 0 (extended_head gas)
unfolding extended_head
Costs-extended_head gas charged = search (free_rules, bind_charge) depth 8

Costs-push_both : (q : Option ℤ) (r : ℤ) → Costs 0 0 (push_both q r)
unfolding push_both
Costs-push_both none r = Costs-panic 0 0
Costs-push_both (some q) r = search (free_rules, Costs-push_i128)

Costs-push_divmod : (a b : ℤ) → Costs 0 0 (push_divmod a b)
unfolding push_divmod
Costs-push_divmod a b = Costs-push_both (checked i128_half (quotient a b)) (remainder a b)

Costs-finish_extended :
    (width flavor : ℕ) (result : ℤ) → Costs 0 0 (finish_extended width flavor result)
unfolding finish_extended
Costs-finish_extended width flavor result =
    search (free_rules, Costs-push_i128, Costs-within_i128) depth 10

Costs-shift_amount : (width : ℕ) (b : ℤ) → Costs 0 0 (shift_amount width b)
unfolding shift_amount
Costs-shift_amount width (pos b) = search free_rules
Costs-shift_amount width (negsuc b) = Costs-raise 0 0 integer_overflow

ruleset arithmetic_rules = (
  cost_rules, Costs-pop_i128, Costs-push_i128, Costs-within_i128, Costs-arithmetic_head,
  Costs-extended_head, Costs-push_divmod, Costs-finish_extended, Costs-shift_amount,
)

pub Costs-arithmetic_instruction : (op : ArithmeticOp) → Costs 1 0 (arithmetic_instruction op)
unfolding arithmetic_instruction
Costs-arithmetic_instruction ArithmeticOp.add = search arithmetic_rules depth 8
Costs-arithmetic_instruction ArithmeticOp.sub = search arithmetic_rules depth 8
Costs-arithmetic_instruction ArithmeticOp.neg = search arithmetic_rules depth 8
Costs-arithmetic_instruction ArithmeticOp.mul = search arithmetic_rules depth 8
Costs-arithmetic_instruction ArithmeticOp.divmod = search arithmetic_rules depth 8
Costs-arithmetic_instruction ArithmeticOp.cmp = search arithmetic_rules depth 8
Costs-arithmetic_instruction ArithmeticOp.iszero = search arithmetic_rules depth 8
Costs-arithmetic_instruction ArithmeticOp.div = search arithmetic_rules depth 8
Costs-arithmetic_instruction ArithmeticOp.shl = search arithmetic_rules depth 8
Costs-arithmetic_instruction ArithmeticOp.shr = search arithmetic_rules depth 8
Costs-arithmetic_instruction ArithmeticOp.conv = search arithmetic_rules depth 8

Costs-push_part : (bytes : Bytes) (offset len : ℕ) → Costs 0 0 (push_part bytes offset len)
unfolding push_part
Costs-push_part bytes offset len = search cost_rules

Costs-load_bits : Costs 1 0 load_bits
unfolding load_bits
Costs-load_bits = search cost_rules depth 8

ruleset cell_rules = (cost_rules, Costs-push_i128, Costs-load_bits)

ruleset bytes_rules = (arithmetic_rules, Costs-push_part)

pub Costs-bytes_instruction : (op : BytesOp) → Costs 1 0 (bytes_instruction op)
unfolding bytes_instruction
Costs-bytes_instruction BytesOp.bytelen = search bytes_rules depth 8
Costs-bytes_instruction BytesOp.concat = search bytes_rules depth 8
Costs-bytes_instruction BytesOp.subbytes = search bytes_rules depth 8
Costs-bytes_instruction BytesOp.byteeq = search bytes_rules depth 8

module _ (crypto : Crypto) where
  pub Costs-crypto_instruction : (op : CryptoOp) → Costs 1 0 (crypto_instruction crypto op)
  unfolding crypto_instruction
  Costs-crypto_instruction CryptoOp.hashbytes = search bytes_rules depth 8
  Costs-crypto_instruction CryptoOp.hashcell = search bytes_rules depth 8
  Costs-crypto_instruction CryptoOp.chksignu = search bytes_rules depth 8

  pub Costs-cell_instruction : (op : CellOp) → Costs 1 0 (cell_instruction crypto op)
  unfolding cell_instruction
  Costs-cell_instruction CellOp.newc = search cell_rules depth 8
  Costs-cell_instruction CellOp.endc = search cell_rules depth 8
  Costs-cell_instruction CellOp.stbits = search cell_rules depth 8
  Costs-cell_instruction CellOp.stref = search cell_rules depth 8
  Costs-cell_instruction CellOp.stbytes = search cell_rules depth 8
  Costs-cell_instruction CellOp.ctos = search cell_rules depth 8
  Costs-cell_instruction CellOp.ldu = search cell_rules depth 8
  Costs-cell_instruction CellOp.ldi = search cell_rules depth 8
  Costs-cell_instruction CellOp.ldref = search cell_rules depth 8
  Costs-cell_instruction CellOp.isexotic = search cell_rules depth 8
  Costs-cell_instruction CellOp.sempty = search cell_rules depth 8
  Costs-cell_instruction CellOp.sbits = search cell_rules depth 8
  Costs-cell_instruction CellOp.srefs = search cell_rules depth 8
