-- ===== src/Execution/Machine/Costs.antt =====
-- What every call of the machine keeps, and what it costs: one rule for each way to build an instruction. Twice the gas
-- that is used pays for the returns from the calls that are open.
pub mod Calls
use the_open_network_x.Prelude.{
  ℕ, zero, suc, ◌+◌, ◌*◌, ◌≤◌, ◌<◌, ◌≡◌, refl, sym, ◌∙◌, Bool, true, false, Option, none, some,
  List, [], ◌∷◌, length, Result, ok, err, leb, ltb, if◌then◌else◌, arith,
}
use the_open_network_x.Prelude.Words.{u64_max, saturating_add}
use the_open_network_x.Primitives.Error.{Bytes}
use the_open_network_x.StateModel.Cell.{Cell}
use the_open_network_x.Execution.Types.{
  ExceptionKind, Slice, Builder, StackValue, integer, bytes_value, cell_value, slice_value,
  builder_value, Continuation, ControlRegisters, take_return,
}
use the_open_network_x.Execution.Machine.{
  Interpreter, Outcome, done, raised, panicked, Exec, continue, pure, raise, panic, ◌>>=◌,
  from_option, from_result, check, gets, consume_gas, pop, pop_from, push, as_integer, as_bytes,
  as_cell, as_slice, as_builder, pop_integer, pop_bytes, pop_cell, pop_slice, pop_builder,
  read_uint8, read_uint16, read_bytes_exact, jump_relative, max_stack_depth,
}

pub record IsWithin (s : Interpreter) : Type 0 where
  pub gas_fits : s.gas_used ≤ s.gas_limit
  pub limit_fits : s.gas_limit < u64_max
  pub stack_fits : length s.stack ≤ max_stack_depth

-- What no call changes, and the gas, which only grows.
pub record IsAfter (s s' : Interpreter) : Type 0 where
  pub within : IsWithin s'
  pub limit_same : s'.gas_limit ≡ s.gas_limit
  pub gas_grows : s.gas_used ≤ s'.gas_used
  pub handler_same : s'.control_registers.c2 ≡ s.control_registers.c2
  pub data_same : s'.contract_data ≡ s.contract_data
  pub messages_same : s'.out_messages ≡ s.out_messages

abbrev pub is_done : {A : Type 0} → Outcome A → Bool
is_done (done a) = true
is_done _ = false

-- A call that succeeds gains at least c and loses at most d.
pub record Costs (c d : ℕ) {A : Type 0} (m : Exec A) : Type 0 where
  pub after : (s : Interpreter) → IsWithin s → IsAfter s (m s).1
  pub gain :
      (s : Interpreter)
      → IsWithin s
      → is_done (m s).0 ≡ true
      → (c + length (m s).1.call_stack) + 2 * s.gas_used
        ≤ (d + length s.call_stack) + 2 * (m s).1.gas_used

pub IsAfter-refl : (s : Interpreter) → IsWithin s → IsAfter s s
IsAfter-refl s h = record {
  within = h;
  limit_same = refl;
  gas_grows = omega arith;
  handler_same = refl;
  data_same = refl;
  messages_same = refl;
}

pub IsAfter-trans : (a b c : Interpreter) → IsAfter a b → IsAfter b c → IsAfter a c
IsAfter-trans a b c h k = record {
  within = k.within;
  limit_same = k.limit_same ∙ h.limit_same;
  gas_grows = let p = h.gas_grows in let q = k.gas_grows in omega arith;
  handler_same = k.handler_same ∙ h.handler_same;
  data_same = k.data_same ∙ h.data_same;
  messages_same = k.messages_same ∙ h.messages_same;
}

module _ {A : Type 0} where
  pub Costs-pure : (a : A) → Costs 0 0 (pure a)
  unfolding pure
  Costs-pure a = record { after = IsAfter-refl; gain = λ s h r. omega arith }

  pub Costs-raise : (c d : ℕ) (kind : ExceptionKind) → Costs c d (raise {A = A} kind)
  unfolding raise
  Costs-raise c d kind = record { after = IsAfter-refl; gain = λ s h r. absurd (ground arith) }

  pub Costs-panic : (c d : ℕ) → Costs c d (panic {A = A})
  unfolding panic
  Costs-panic c d = record { after = IsAfter-refl; gain = λ s h r. absurd (ground arith) }

  pub Costs-gets : (f : Interpreter → A) → Costs 0 0 (gets f)
  unfolding gets
  Costs-gets f = record { after = IsAfter-refl; gain = λ s h r. omega arith }

  pub Costs-from_option : (o : Option A) (kind : ExceptionKind) → Costs 0 0 (from_option o kind)
  unfolding from_option
  Costs-from_option none kind = Costs-raise 0 0 kind
  Costs-from_option (some a) kind = Costs-pure a

  pub Costs-from_result : (r : Result ExceptionKind A) → Costs 0 0 (from_result r)
  unfolding from_result
  Costs-from_result (err kind) = Costs-raise 0 0 kind
  Costs-from_result (ok a) = Costs-pure a

  pub Costs-weaken : (c d c' d' : ℕ) (m : Exec A) → c' + d ≤ c + d' → Costs c d m → Costs c' d' m
  Costs-weaken c d c' d' m e h = record {
    after = h.after;
    gain = λ s w r. let g = h.gain s w r in omega (arith, e, g);
  }

  pub Costs-if :
      (c d : ℕ) (b : Bool) (m n : Exec A)
      → Costs c d m
      → Costs c d n
      → Costs c d (if b then m else n)
  Costs-if c d true m n km kn = km
  Costs-if c d false m n km kn = kn

pub Costs-check : (b : Bool) (kind : ExceptionKind) → Costs 0 0 (check b kind)
unfolding check
Costs-check true kind = Costs-pure tt
Costs-check false kind = Costs-raise 0 0 kind

module _ {A B : Type 0} where
  continue_after :
      (c' d' : ℕ) (f : A → Exec B) (r : Outcome A) (s : Interpreter)
      → ((a : A) → Costs c' d' (f a))
      → IsWithin s
      → IsAfter s (continue r f s).1
  continue_after c' d' f (done a) s k h = (k a).after s h
  continue_after c' d' f (raised kind) s k h = IsAfter-refl s h
  continue_after c' d' f panicked s k h = IsAfter-refl s h

  continue_gain :
      (c d c' d' : ℕ) (f : A → Exec B) (r : Outcome A) (before s : Interpreter)
      → ((a : A) → Costs c' d' (f a))
      → IsWithin s
      → (is_done r ≡ true
          → (c + length s.call_stack) + 2 * before.gas_used
            ≤ (d + length before.call_stack) + 2 * s.gas_used)
      → is_done (continue r f s).0 ≡ true
      → ((c + c') + length (continue r f s).1.call_stack) + 2 * before.gas_used
        ≤ ((d + d') + length before.call_stack) + 2 * (continue r f s).1.gas_used
  continue_gain c d c' d' f (done a) before s k h first fine =
      let later = (k a).gain s h fine in let earlier = first refl in omega (arith, later, earlier)
  continue_gain c d c' d' f (raised kind) before s k h first fine = absurd (ground arith)
  continue_gain c d c' d' f panicked before s k h first fine = absurd (ground arith)

  Costs-bind :
      (c d c' d' : ℕ) (m : Exec A) (f : A → Exec B)
      → Costs c d m
      → ((a : A) → Costs c' d' (f a))
      → Costs (c + c') (d + d') (m >>= f)
  unfolding ◌>>=◌
  Costs-bind c d c' d' m f km kf = record {
    after = λ s h.
        IsAfter-trans s (m s).1 _ (km.after s h)
          (continue_after c' d' f (m s).0 (m s).1 kf (km.after s h).within);
    gain =
        λ s h. continue_gain c d c' d' f (m s).0 s (m s).1 kf (km.after s h).within (km.gain s h);
  }

  -- A block of calls that cost nothing; a charge before such a block, behind it, and before a call of a reference.
  pub bind_free :
      (m : Exec A) (f : A → Exec B)
      → Costs 0 0 m
      → ((a : A) → Costs 0 0 (f a))
      → Costs 0 0 (m >>= f)
  bind_free = Costs-bind 0 0 0 0

  pub bind_charge :
      (m : Exec A) (f : A → Exec B)
      → Costs 2 0 m
      → ((a : A) → Costs 0 0 (f a))
      → Costs 1 0 (m >>= f)
  bind_charge m f km kf =
      Costs-weaken 2 0 1 0 (m >>= f) (omega arith) (Costs-bind 2 0 0 0 m f km kf)

  pub bind_later :
      (m : Exec A) (f : A → Exec B)
      → Costs 0 0 m
      → ((a : A) → Costs 1 0 (f a))
      → Costs 1 0 (m >>= f)
  bind_later = Costs-bind 0 0 1 0

  pub bind_owing :
      (m : Exec A) (f : A → Exec B)
      → Costs 2 0 m
      → ((a : A) → Costs 0 1 (f a))
      → Costs 1 0 (m >>= f)
  bind_owing m f km kf = Costs-weaken 2 1 1 0 (m >>= f) (omega arith) (Costs-bind 2 0 0 1 m f km kf)

  pub bind_owed :
      (m : Exec A) (f : A → Exec B)
      → Costs 0 0 m
      → ((a : A) → Costs 0 1 (f a))
      → Costs 0 1 (m >>= f)
  bind_owed = Costs-bind 0 0 0 1

  pub bind_debt :
      (m : Exec A) (f : A → Exec B)
      → Costs 0 1 m
      → ((a : A) → Costs 0 0 (f a))
      → Costs 0 1 (m >>= f)
  bind_debt = Costs-bind 0 1 0 0

  pub bind_paid :
      (m : Exec A) (f : A → Exec B)
      → Costs 1 0 m
      → ((a : A) → Costs 0 0 (f a))
      → Costs 1 0 (m >>= f)
  bind_paid = Costs-bind 1 0 0 0
