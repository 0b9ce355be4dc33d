-- ===== src/Handshake/Tests.antt =====
-- HandshakeContext (Common/WebSocket/handshake_ctx.py) under concrete calls.
use cpy_q.Prelude.{ℕ, ◌≡◌, refl, some, List, [], ◌∷◌}
use cpy_q.Prelude.Raises.{raises}
use cpy_q.Handshake.{
  HandshakeContext, is_complete, result, is_immutable, new_context, Call, binds, completes, fails,
  call, run,
}
use cpy_q.Handshake.Invariant.{IsConsistent, run-IsConsistent, run_settled}

-- A second handshake and a completion out of turn are refused.
abbrev history : List (Call ℕ ℕ)
history = completes ∷ binds 7 ∷ binds 8 ∷ completes ∷ fails 1001 ∷ []

abbrev settled : HandshakeContext ℕ ℕ
settled = record { phase = is_complete; event = some 7; future = result (some 7) }

run-history : run new_context history ≡ settled
unfolding run call
run-history = refl

run-IsConsistent_example : IsConsistent (run {E = ℕ} {C = ℕ} new_context history)
run-IsConsistent_example = run-IsConsistent ℕ ℕ history

run_settled_example :
    (call (fails 1001) settled ≡ raises is_immutable) × (run settled history ≡ settled)
run_settled_example = run_settled ℕ ℕ settled (fails 1001) history (λ e. cc)
