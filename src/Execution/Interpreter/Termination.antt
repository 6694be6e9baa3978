-- ===== src/Execution/Interpreter/Termination.antt =====
-- A run without an exception handler ends: gas pays for every instruction, and a call for its return.
use the_open_network_x.Prelude.{
  ℕ, zero, suc, ◌+◌, ◌-◌, ◌*◌, ◌≤◌, ◌<◌, ◌≡◌, refl, ap, ◌∙◌, Bool, true, false, none, some, List,
  [], ◌∷◌, length, leb, arith, Bool-cases, inl, inr, ◌⊎◌,
}
use the_open_network_x.Prelude.Words.{u64_max}
use the_open_network_x.Primitives.Hash.{Crypto}
use the_open_network_x.DataStructures.Message.{Message}
use the_open_network_x.StateModel.Cell.{Cell}
use the_open_network_x.Execution.Types.{
  ExceptionKind, ExecutionContext, Continuation, success, exception,
}
use the_open_network_x.Execution.Machine.{
  Interpreter, new, Outcome, done, raised, panicked, code_bits, jump_to,
}
use the_open_network_x.Execution.Machine.Costs.{
  IsWithin, IsAfter, IsAfter-refl, IsAfter-trans, Costs, is_done, bind_later,
}
use the_open_network_x.Execution.Machine.Costs.Calls.{Costs-read_uint8}
use the_open_network_x.Execution.Instructions.Costs.Control.{IsAfter-place, Costs-execute}
use the_open_network_x.Execution.Interpreter.{
  Ending, returned, aborted, resume, to_handler, handle_exception, fetch, step, run,
}

-- The rounds that a state can still take.
abbrev pub rounds_left : Interpreter → ℕ
rounds_left s = 2 * (s.gas_limit - s.gas_used) + length s.call_stack

-- What a state that has made no change keeps.
abbrev pub Accounts : Interpreter → Interpreter → Outcome Bool → Type 0
Accounts s s' r = IsAfter s s' × (r ≡ done true → rounds_left s' < rounds_left s)

resume-Accounts :
    (calls : List Continuation) (s : Interpreter)
    → IsWithin s
    → s.call_stack ≡ calls
    → Accounts s (resume calls s).1 (resume calls s).0
unfolding jump_to
resume-Accounts [] s h e = (IsAfter-refl s h, λ r. absurd (ground arith))
resume-Accounts (c ∷ calls) s h e = (
  IsAfter-place s c.code c.pc_bits calls s.control_registers.c0 h,
  λ r. omega (arith, ap length e),
)

-- The ways for a run without a handler to end, in a state.
pub data IsEnding (s last : Interpreter) : Ending → Type 0 where
  succeeds : IsEnding s last (returned (success s.contract_data s.out_messages last.gas_used))
  fails : (kind : ExceptionKind) → IsEnding s last (returned (exception kind last.gas_used))
  panics : IsEnding s last aborted

IsEnding-before :
    (s s' last : Interpreter) (ending : Ending)
    → IsAfter s s'
    → IsEnding s' last ending
    → IsEnding s last ending
IsEnding-before s s' last (returned (success c ms gas)) after succeeds =
    rw (after.data_same, after.messages_same) succeeds
IsEnding-before s s' last (returned (exception k gas)) after (fails kind) = fails kind
IsEnding-before s s' last aborted after panics = panics

ending_kinds :
    (s last : Interpreter) (ending : Ending)
    → IsEnding s last ending
    → (ending ≡ returned (success s.contract_data s.out_messages last.gas_used))
      ⊎ ((kind : ExceptionKind) × (ending ≡ returned (exception kind last.gas_used)))
      ⊎ (ending ≡ aborted)
ending_kinds s last (returned (success c ms gas)) succeeds = inl refl
ending_kinds s last (returned (exception k gas)) (fails kind) = inr (inl (kind, refl))
ending_kinds s last aborted panics = inr (inr refl)

module _ (crypto : Crypto) where
  Costs-fetch : Costs 1 0 (fetch crypto)
  unfolding fetch
  Costs-fetch = search (bind_later, Costs-read_uint8, Costs-execute)

  fetch-Accounts : (s : Interpreter) → IsWithin s → Accounts s (fetch crypto s).1 (fetch crypto s).0
  fetch-Accounts s h =
      let after = Costs-fetch.after s h in
      (
        after,
        λ r.
            let gain = Costs-fetch.gain s h (ap is_done r) in
            let w = after.within.gas_fits in
            let l = after.limit_same in let g = after.gas_grows in omega (arith, gain, w, l, g),
      )

  step-Accounts : (s : Interpreter) → IsWithin s → Accounts s (step crypto s).1 (step crypto s).0
  unfolding step
  step-Accounts s h = elim (Bool-cases (leb (code_bits s) s.pc_bits)) [
    | inl at_end ↦ rw (step, at_end) (resume-Accounts s.call_stack s h refl)
    | inr inside ↦ rw (step, inside) (fetch-Accounts s h)
  ]

  -- A run that ends, within its gas.
  abbrev pub Ends : ℕ → Interpreter → Type 0
  Ends rounds s =
      (ending : Ending) × (last : Interpreter) × (run crypto rounds s ≡ some (ending, last))
      × IsAfter s last
      × IsEnding s last ending

  -- What a round leads to, from the outcome of a step.
  Ends-next :
      (rounds : ℕ) (s : Interpreter) (r : Outcome Bool) (s' : Interpreter)
      → step crypto s ≡ (r, s')
      → IsAfter s s'
      → s.control_registers.c2 ≡ none
      → (r ≡ done true → Ends rounds s')
      → Ends (suc rounds) s
  unfolding run handle_exception
  Ends-next rounds s (done true) s' e after none_set later =
      let (ending, last, ran, kept, reason) = later refl in
      (
        ending,
        last,
        rw (run, e) ran,
        IsAfter-trans s s' last after kept,
        IsEnding-before s s' last ending after reason,
      )
  Ends-next rounds s (done false) s' e after none_set later = (
    returned (success s'.contract_data s'.out_messages s'.gas_used),
    s',
    rw (run, e) refl,
    after,
    rw (after.data_same, after.messages_same) succeeds,
  )
  Ends-next rounds s (raised kind) s' e after none_set later =
      let still_none : s'.control_registers.c2 ≡ none = after.handler_same ∙ none_set in
      let unhandled = ap (to_handler kind s') still_none in
      (returned (exception kind s'.gas_used), s', rw (run, e, unhandled) refl, after, fails kind)
  Ends-next rounds s panicked s' e after none_set later =
      (aborted, s', rw (run, e) refl, after, panics)

  run-Ends :
      (rounds : ℕ) (s : Interpreter)
      → IsWithin s
      → s.control_registers.c2 ≡ none
      → rounds_left s < rounds
      → Ends rounds s
  run-Ends zero s h none_set enough = absurd (omega (arith, enough))
  run-Ends (suc rounds) s h none_set enough =
      let (after, fewer) = step-Accounts s h in
      let s' = (step crypto s).1 in
      Ends-next rounds s (step crypto s).0 s' refl after none_set λ r.
        run-Ends rounds s' after.within (after.handler_same ∙ none_set)
          (let less = fewer r in omega (arith, less, enough))

  -- A contract that runs without an exception handler and with less than the largest u64 of gas ends in at most
  -- twice its gas and one rounds, within its gas: it succeeds with the data that it was given and no
  -- message, fails with an exception, or panics.
  pub run_terminates :
      (code contract_data : Cell) (message : Message) (context : ExecutionContext)
      → context.gas_limit < u64_max
      → (ending : Ending) × (last : Interpreter) × (run crypto
            (2 * context.gas_limit + 1)
            (new code contract_data message context)
          ≡ some (ending, last))
        × (last.gas_used ≤ context.gas_limit)
        × ((ending ≡ returned (success contract_data [] last.gas_used))
            ⊎ ((kind : ExceptionKind) × (ending ≡ returned (exception kind last.gas_used)))
            ⊎ (ending ≡ aborted))
  unfolding new
  run_terminates code contract_data message context fits =
      let s = new code contract_data message context in
      let start : IsWithin s = record {
        gas_fits = omega arith;
        limit_fits = fits;
        stack_fits = omega arith;
      } in
      let (ending, last, ran, after, reason) =
        run-Ends (2 * context.gas_limit + 1) s start refl (omega arith) in
      (
        ending,
        last,
        ran,
        let w = after.within.gas_fits in let l = after.limit_same in omega (arith, w, l),
        ending_kinds s last ending reason,
      )
