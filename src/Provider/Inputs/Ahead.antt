-- ===== src/Provider/Inputs/Ahead.antt =====
-- Input chunks of src/acmp/provider.py that race ahead of the start of their task.
use sdk_reference.Prelude.{◌≡◌, refl, none, List, [], ◌∷◌, ◌++◌, eq_refl}
use sdk_reference.Prelude.Int.{ℤ}
use sdk_reference.Prelude.Dict.{lookup, lookup-insert, delete-insert, insert-insert}
use sdk_reference.Messages.Task.{Task}
use sdk_reference.TaskContext.{TaskContext, Chunk, new_context, feed_input, feed_all}
use sdk_reference.Provider.{Provider}
use sdk_reference.Provider.Invoke.{waiting, start_task}
use sdk_reference.Provider.Inputs.{take_chunk}

feed_all-append :
    (chunks : List (ℤ × Chunk)) (seq : ℤ) (chunk : Chunk) (c : TaskContext)
    → feed_all (chunks ++ (seq, chunk) ∷ []) c ≡ feed_input seq chunk (feed_all chunks c)
unfolding feed_all
feed_all-append [] seq chunk c = refl
feed_all-append ((k, i) ∷ rest) seq chunk c = feed_all-append rest seq chunk (feed_input k i c)

-- An input chunk that arrives before its task has started leaves the provider as one that arrives
-- right after.
pub take_chunk-start_task :
    (t : Task) (seq : ℤ) (chunk : Chunk) (p : Provider)
    → lookup t.task_id p.running ≡ none
    → start_task t (take_chunk t.task_id seq chunk p)
      ≡ take_chunk t.task_id seq chunk (start_task t p)
unfolding start_task take_chunk
take_chunk-start_task t seq chunk p idle =
    let held = waiting (lookup t.task_id p.pending_input) in
    let ctx = feed_all held (new_context t) in
    rw idle (
      rw (lookup-insert t.task_id t.task_id (held ++ (seq, chunk) ∷ []) p.pending_input) (
        rw (lookup-insert t.task_id t.task_id ctx p.running) (
          rw (eq_refl t.task_id) (
            rw (feed_all-append held seq chunk (new_context t)) (
              rw (delete-insert t.task_id (held ++ (seq, chunk) ∷ []) p.pending_input)
                (rw (insert-insert t.task_id (feed_input seq chunk ctx) ctx p.running) refl))))))
