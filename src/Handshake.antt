-- ===== src/Handshake.antt =====
-- Common/WebSocket/handshake_ctx.py: the class HandshakeContext, over any type of events and of
-- close codes. A method that raises does so before it writes, so it returns the new object or the
-- exception.
pub mod Invariant
mod Tests
use cpy_q.Prelude.{Option, none, some, List, [], ◌∷◌}
use cpy_q.Prelude.Raises.{Raises, returns, raises, ◌>>=◌, ◌>>◌}

-- `HandshakePhase` of Common/WebSocket/subprotocol.py
pub data Phase : Type 0 where
  not_started in_progress is_complete : Phase

-- The future of `make_future`, by how far it is settled. No method of the context cancels it, and the
-- cancelled state is left out.
pub data Future (R C : Type 0) : Type 0 where
  pending : Future R C
  result : R → Future R C
  exception : C → Future R C

-- `RuntimeError`, by its message
pub data RuntimeError : Type 0 where
  is_immutable has_already_started is_not_in_progress : RuntimeError

-- `set_result(self.__event)` may store `None`, as far as the types go.
pub record HandshakeContext (E C : Type 0) : Type 0 where
  pub phase : Phase
  pub event : Option E
  pub future : Future (Option E) C

module _ {E C : Type 0} where
  -- `__init__`
  abbrev pub new_context : HandshakeContext E C
  new_context = record { phase = not_started; event = none; future = pending }

  unfoldable pub ensure_mutable : HandshakeContext E C → Raises RuntimeError Unit
  ensure_mutable ctx = elim ctx.future [ pending ↦ returns tt | _ ↦ raises is_immutable ]

  unfoldable pub bind : E → HandshakeContext E C → Raises RuntimeError (HandshakeContext E C)
  unfolding ensure_mutable
  bind event ctx = ensure_mutable ctx >> elim ctx.phase [
    | not_started ↦ returns (record ctx { phase = in_progress; event = some event })
    | _ ↦ raises has_already_started
  ]

  -- the method `done`
  unfoldable pub complete : HandshakeContext E C → Raises RuntimeError (HandshakeContext E C)
  unfolding ensure_mutable
  complete ctx = ensure_mutable ctx >> elim ctx.phase [
    | in_progress ↦ returns (record ctx { phase = is_complete; future = result ctx.event })
    | _ ↦ raises is_not_in_progress
  ]

  unfoldable pub fail : C → HandshakeContext E C → Raises RuntimeError (HandshakeContext E C)
  unfolding ensure_mutable
  fail code ctx = ensure_mutable ctx >> returns (record ctx { future = exception code })

-- The calls that owners of a context make.
pub data Call (E C : Type 0) : Type 0 where
  binds : E → Call E C
  completes : Call E C
  fails : C → Call E C

module _ {E C : Type 0} where
  unfoldable pub call : Call E C → HandshakeContext E C → Raises RuntimeError (HandshakeContext E C)
  unfolding bind complete fail
  call (binds event) ctx = bind event ctx
  call completes ctx = complete ctx
  call (fails code) ctx = fail code ctx

  -- The context after a call: one that raises leaves it as it was.
  abbrev pub after :
      HandshakeContext E C → Raises RuntimeError (HandshakeContext E C) → HandshakeContext E C
  after ctx (returns ctx') = ctx'
  after ctx (raises error) = ctx

  unfoldable pub run : HandshakeContext E C → List (Call E C) → HandshakeContext E C
  run ctx [] = ctx
  run ctx (c ∷ cs) = run (after ctx (call c ctx)) cs
