-- ===== src/TaskContext/Emission.antt =====
-- What a handler's calls of `emit` send.
use sdk_reference.Prelude.{
  ℕ, suc, String, ◌≡◌, refl, Bool, true, false, not, List, [], ◌∷◌, ◌++◌, if◌then◌else◌, ap,
}
use sdk_reference.Prelude.Int.{pos}
use sdk_reference.Json.{Object}
use sdk_reference.Exec.{Outcome, ok, raised, fault, runtime_error}
use sdk_reference.Messages.{make_notification}
use sdk_reference.Messages.Task.{Payload}
use sdk_reference.TaskContext.{TaskContext, Chunk, chunk_params, emitted, emit}

abbrev next_call :
    Outcome (List Object) × TaskContext
    → (TaskContext → List Object × TaskContext)
    → List Object × TaskContext
next_call (ok sent, c) rest = let (more, c') = rest c in (sent ++ more, c')
next_call (raised e, c) rest = ([], c)
next_call (fault x, c) rest = ([], c)

-- A handler that makes these calls, one after the other, up to the first that raises.
unfoldable pub emit_calls : List Chunk → TaskContext → List Object × TaskContext
emit_calls [] c = ([], c)
emit_calls ((chunk, final) ∷ calls) c = next_call (emit chunk final c) (λ c'. emit_calls calls c')

abbrev pub stream_chunk : String → ℕ → Chunk → Object
stream_chunk task_id n (chunk, final) =
    make_notification "acmp/streamChunk" (chunk_params task_id (pos n) chunk final)

-- The chunks up to the final one, numbered from `n`.
unfoldable pub numbered : String → ℕ → List Chunk → List Object
numbered task_id n [] = []
numbered task_id n ((chunk, true) ∷ calls) = stream_chunk task_id n (chunk, true) ∷ []
numbered task_id n ((chunk, false) ∷ calls) =
    stream_chunk task_id n (chunk, false) ∷ numbered task_id (suc n) calls

choose :
    {A : Type 0} (stream sent : Bool) (a b c : A)
    → stream ≡ true
    → sent ≡ false
    → (if not stream then a else if sent then b else c) ≡ c
choose true false a b c s f = refl
choose true true a b c s f = cc
choose false sent a b c s f = cc

emit-open :
    (chunk : Payload) (final : Bool) (c : TaskContext)
    → c.task.stream ≡ true
    → c.output_final_sent ≡ false
    → emit chunk final c
      ≡ (ok (stream_chunk c.task.task_id c.out_seq (chunk, final) ∷ []), emitted final c)
unfolding emit
emit-open chunk final c s f = choose c.task.stream c.output_final_sent _ _ _ s f

refuse :
    {A : Type 0} (stream sent : Bool) (a b c : A)
    → stream ≡ true
    → sent ≡ true
    → (if not stream then a else if sent then b else c) ≡ b
refuse true true a b c s f = refl
refuse true false a b c s f = cc
refuse false sent a b c s f = cc

emit-after_final :
    (chunk : Payload) (final : Bool) (c : TaskContext)
    → c.task.stream ≡ true
    → c.output_final_sent ≡ true
    → emit chunk final c ≡ (fault (runtime_error "handler emitted a chunk after final=True"), c)
unfolding emit
emit-after_final chunk final c s f = refuse c.task.stream c.output_final_sent _ _ _ s f

after_final :
    (calls : List Chunk) (c : TaskContext)
    → c.task.stream ≡ true
    → c.output_final_sent ≡ true
    → (emit_calls calls c).0 ≡ []
unfolding emit_calls
after_final [] c s f = refl
after_final ((chunk, final) ∷ calls) c s f = rw (emit-after_final chunk final c s f) refl

-- On a task that asked for a stream, the calls of `emit` send their chunks numbered one after the
-- other, up to the first that is final and nothing after it.
pub emit_calls-numbered :
    (calls : List Chunk) (c : TaskContext)
    → c.task.stream ≡ true
    → c.output_final_sent ≡ false
    → (emit_calls calls c).0 ≡ numbered c.task.task_id c.out_seq calls
unfolding emit_calls numbered
emit_calls-numbered [] c s f = refl
emit_calls-numbered ((chunk, true) ∷ calls) c s f = rw (emit-open chunk true c s f) (
    ap (λ more. stream_chunk c.task.task_id c.out_seq (chunk, true) ∷ more)
      (after_final calls (emitted true c) s refl))
emit_calls-numbered ((chunk, false) ∷ calls) c s f = rw (emit-open chunk false c s f) (
    ap (λ more. stream_chunk c.task.task_id c.out_seq (chunk, false) ∷ more)
      (emit_calls-numbered calls (emitted false c) s f))
