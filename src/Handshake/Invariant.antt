-- ===== src/Handshake/Invariant.antt =====
-- The statements that the doc comment of HandshakeContext (Common/WebSocket/handshake_ctx.py) says
-- must always hold, and that a settled context never changes.
use cpy_q.Prelude.{◌≡◌, refl, ◌≢◌, ◌↔◌, ◌⊎◌, inl, inr, Option, none, some, List, [], ◌∷◌, arith}
use cpy_q.Prelude.Raises.{raises}
use cpy_q.Handshake.{
  not_started, in_progress, is_complete, pending, result, exception, is_immutable, HandshakeContext,
  new_context, Call, binds, completes, fails, call, after, run,
}

module _ {E C : Type 0} where
  -- The three statements of the doc comment, and that a result is the event that was bound.
  pub record IsConsistent (ctx : HandshakeContext E C) : Type 0 where
    pub started_has_event :
        ((ctx.phase ≡ in_progress) ⊎ (ctx.phase ≡ is_complete)) ↔ ((e : E) × (ctx.event ≡ some e))
    pub complete_has_result : (ctx.phase ≡ is_complete) ↔ ((e : E) × (ctx.future ≡ result (some e)))
    pub failed_is_not_complete : (code : C) → ctx.future ≡ exception code → ctx.phase ≢ is_complete
    pub result_is_event : (r : Option E) → ctx.future ≡ result r → ctx.event ≡ r

  -- The states that the methods can reach.
  data Shape : HandshakeContext E C → Type 0 where
    fresh : Shape (record { phase = not_started; event = none; future = pending })
    bound : (e : E) → Shape (record { phase = in_progress; event = some e; future = pending })
    finished :
        (e : E) → Shape (record { phase = is_complete; event = some e; future = result (some e) })
    failed_early :
        (c : C) → Shape (record { phase = not_started; event = none; future = exception c })
    failed_late :
        (e : E) (c : C)
        → Shape (record { phase = in_progress; event = some e; future = exception c })

  call-Shape :
      (c : Call E C) (ctx : HandshakeContext E C) → Shape ctx → Shape (after ctx (call c ctx))
  unfolding call
  call-Shape (binds e) ctx fresh = bound e
  call-Shape (binds e) ctx (bound e') = bound e'
  call-Shape (binds e) ctx (finished e') = finished e'
  call-Shape (binds e) ctx (failed_early c) = failed_early c
  call-Shape (binds e) ctx (failed_late e' c) = failed_late e' c
  call-Shape completes ctx fresh = fresh
  call-Shape completes ctx (bound e) = finished e
  call-Shape completes ctx (finished e) = finished e
  call-Shape completes ctx (failed_early c) = failed_early c
  call-Shape completes ctx (failed_late e c) = failed_late e c
  call-Shape (fails c) ctx fresh = failed_early c
  call-Shape (fails c) ctx (bound e) = failed_late e c
  call-Shape (fails c) ctx (finished e) = finished e
  call-Shape (fails c) ctx (failed_early c') = failed_early c'
  call-Shape (fails c) ctx (failed_late e c') = failed_late e c'

  run-Shape : (ctx : HandshakeContext E C) (cs : List (Call E C)) → Shape ctx → Shape (run ctx cs)
  unfolding run
  run-Shape ctx [] s = s
  run-Shape ctx (c ∷ cs) s = run-Shape (after ctx (call c ctx)) cs (call-Shape c ctx s)

  Shape-IsConsistent : (ctx : HandshakeContext E C) → Shape ctx → IsConsistent ctx
  Shape-IsConsistent ctx fresh = record {
    started_has_event = ((λ h. ground arith), λ h. ground arith);
    complete_has_result = ((λ h. cc), λ h. ground arith);
    failed_is_not_complete = λ c h e. cc;
    result_is_event = λ r h. cc;
  }
  Shape-IsConsistent ctx (bound e) = record {
    started_has_event = ((λ h. (e, refl)), λ h. inl refl);
    complete_has_result = ((λ h. cc), λ h. ground arith);
    failed_is_not_complete = λ c h e'. cc;
    result_is_event = λ r h. cc;
  }
  Shape-IsConsistent ctx (finished e) = record {
    started_has_event = ((λ h. (e, refl)), λ h. inr refl);
    complete_has_result = ((λ h. (e, refl)), λ h. refl);
    failed_is_not_complete = λ c h e'. cc;
    result_is_event = λ r h. ground arith;
  }
  Shape-IsConsistent ctx (failed_early c) = record {
    started_has_event = ((λ h. ground arith), λ h. ground arith);
    complete_has_result = ((λ h. cc), λ h. ground arith);
    failed_is_not_complete = λ c' h e. cc;
    result_is_event = λ r h. cc;
  }
  Shape-IsConsistent ctx (failed_late e c) = record {
    started_has_event = ((λ h. (e, refl)), λ h. inl refl);
    complete_has_result = ((λ h. cc), λ h. ground arith);
    failed_is_not_complete = λ c' h e'. cc;
    result_is_event = λ r h. cc;
  }

-- After any sequence of calls on a new context, whatever they raise, the three statements of the
-- class's doc comment hold, and a result is the event that is bound.
pub run-IsConsistent : (E C : Type 0) (cs : List (Call E C)) → IsConsistent (run new_context cs)
run-IsConsistent E C cs = Shape-IsConsistent _ (run-Shape new_context cs fresh)

call_settled :
    {E C : Type 0} (c : Call E C) (ctx : HandshakeContext E C)
    → ctx.future ≢ pending
    → call c ctx ≡ raises is_immutable
unfolding call
call_settled (binds e) ctx h = ground arith
call_settled completes ctx h = ground arith
call_settled (fails code) ctx h = ground arith

run-call_settled :
    {E C : Type 0} (ctx : HandshakeContext E C) (cs : List (Call E C))
    → ctx.future ≢ pending
    → run ctx cs ≡ ctx
unfolding run
run-call_settled ctx [] h = refl
run-call_settled ctx (c ∷ cs) h = rw (call_settled c ctx h) (run-call_settled ctx cs h)

-- Once the future is settled, every call raises, and no sequence of calls changes the context.
pub run_settled :
    (E C : Type 0) (ctx : HandshakeContext E C) (c : Call E C) (cs : List (Call E C))
    → ctx.future ≢ pending
    → (call c ctx ≡ raises is_immutable) × (run ctx cs ≡ ctx)
run_settled E C ctx c cs h = (call_settled c ctx h, run-call_settled ctx cs h)
