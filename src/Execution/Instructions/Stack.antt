-- ===== src/Execution/Instructions/Stack.antt =====
-- crates/protocol/onx-execution/src/interpreter.rs, the arms 0x00 to 0x0C: the operand stack.
use the_open_network_x.Prelude.{
  ℕ, zero, suc, ◌+◌, ◌/◌, ◌++◌, not, ◌||◌, List, [], ◌∷◌, get_elem?, take, drop, length, ltb, ◌==◌,
}
use the_open_network_x.Execution.Types.{StackValue, integer, bytes_value, malformed_cell}
use the_open_network_x.Execution.Machine.{
  Exec, done, ◌>>=◌, ◌>>◌, pure, from_option, check, gets, consume_gas, pop, push, read_uint8,
  read_uint16, read_bytes_exact,
}

pub data StackOp : Type 0 where
  nop drop_top dup swap over rot pick roll pushint pushbytes nip tuck blkswap : StackOp

unfoldable pub depth : Exec ℕ
unfolding gets
depth = gets (λ s. length s.stack)

-- The value at a depth below the top, left where it is.
unfoldable pub value_at : ℕ → Exec StackValue
value_at i = do stack ← gets (λ s. s.stack); from_option (get_elem? stack i) malformed_cell

-- A list without its entry at an index.
abbrev pub without : ℕ → List StackValue → List StackValue
without i [] = []
without zero (value ∷ stack) = stack
without (suc i) (value ∷ stack) = value ∷ without i stack

unfoldable pub remove_at : ℕ → Exec (Unit {0})
remove_at i self = (done tt, record self { stack = without i self.stack })

-- `rotate_left` of the top block, which has its top in front here.
abbrev pub rotated : ℕ → ℕ → List StackValue → List StackValue
rotated left right stack =
    let block = take (left + right) stack in
    (drop right block ++ take right block) ++ drop (left + right) stack

unfoldable pub rotate : ℕ → ℕ → Exec (Unit {0})
rotate left right self = (done tt, record self { stack = rotated left right self.stack })

abbrev pub div_ceil : ℕ → ℕ
div_ceil len = (len + 31) / 32

unfoldable pub stack_instruction : StackOp → Exec (Unit {0})
stack_instruction StackOp.nop = consume_gas 1
stack_instruction StackOp.drop_top = do consume_gas 1; value ← pop; pure tt
stack_instruction StackOp.dup = do consume_gas 1; top ← value_at 0; push top
stack_instruction StackOp.swap = do consume_gas 1; a ← pop; b ← pop; push a; push b
stack_instruction StackOp.over = do consume_gas 1; second ← value_at 1; push second
stack_instruction StackOp.rot = do consume_gas 1; c ← pop; b ← pop; a ← pop; push b; push c; push a
stack_instruction StackOp.pick = do
  consume_gas 1
  index ← read_uint8
  item ← value_at index
  push item
stack_instruction StackOp.roll = do
  consume_gas 1
  index ← read_uint8
  item ← value_at index
  remove_at index
  push item
stack_instruction StackOp.pushint = do
  consume_gas 1
  signed ← read_uint8
  bytes ← read_bytes_exact 32
  push (integer bytes)
stack_instruction StackOp.pushbytes = do
  len ← read_uint16
  consume_gas (1 + div_ceil len)
  bytes ← read_bytes_exact len
  push (bytes_value bytes)
stack_instruction StackOp.nip = do
  consume_gas 1
  len ← depth
  check (not (ltb len 2)) malformed_cell
  top ← pop
  below ← pop
  push top
stack_instruction StackOp.tuck = do
  consume_gas 1
  len ← depth
  check (not (ltb len 2)) malformed_cell
  b ← pop
  a ← pop
  push b
  push a
  push b
stack_instruction StackOp.blkswap = do
  consume_gas 1
  left ← read_uint8
  right ← read_uint8
  len ← depth
  check (not (left == 0 || (right == 0 || ltb len (left + right)))) malformed_cell
  rotate left right
