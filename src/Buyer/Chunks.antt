-- ===== src/Buyer/Chunks.antt =====
-- The input chunks that a buyer sends, and what a provider makes of them.
use sdk_reference.Prelude.{
  ℕ, suc, String, ◌≡◌, refl, ap, ◌∙◌, true, false, none, List, [], ◌∷◌, ◌++◌, eq_refl,
}
use sdk_reference.Prelude.Int.{pos}
use sdk_reference.Prelude.Dict.{Dict, lookup, insert, delete, lookup-insert, lookup-delete}
use sdk_reference.Json.{Object}
use sdk_reference.Exec.{ok}
use sdk_reference.Access.{as_num, as_str, as_bool, as_obj, item, item_as, get_or_as}
use sdk_reference.Messages.{make_notification}
use sdk_reference.Messages.Task.{payload_dict, payload_from_dict}
use sdk_reference.TaskContext.{Chunk, chunk_params}
use sdk_reference.Buyer.{Buyer, next_seq, send_input_chunk}
use sdk_reference.Provider.{Provider}
use sdk_reference.Provider.Inputs.{take_chunk, handle_input_chunk}

abbrev pub input_message : String → ℕ → Chunk → Object
input_message task_id n (chunk, final) =
    make_notification "acmp/inputChunk" (chunk_params task_id (pos n) chunk final)

-- The chunks of one task, one after the other.
unfoldable pub send_chunks : String → List Chunk → Buyer → List Object × Buyer
send_chunks task_id [] b = ([], b)
send_chunks task_id ((chunk, final) ∷ rest) b =
    let (sent, b1) = send_input_chunk task_id chunk final b in
    let (more, b2) = send_chunks task_id rest b1 in (sent ++ more, b2)

-- Numbered from `n`, and anew from 0 after a final chunk.
unfoldable pub input_messages : String → ℕ → List Chunk → List Object
input_messages task_id n [] = []
input_messages task_id n ((chunk, true) ∷ rest) =
    input_message task_id n (chunk, true) ∷ input_messages task_id 0 rest
input_messages task_id n ((chunk, false) ∷ rest) =
    input_message task_id n (chunk, false) ∷ input_messages task_id (suc n) rest

next_seq-delete : (k : String) (d : Dict ℕ) → next_seq (lookup k (delete k d)) ≡ 0
next_seq-delete k d = rw (lookup-delete k k d) (rw (eq_refl k) refl)

next_seq-insert : (k : String) (n : ℕ) (d : Dict ℕ) → next_seq (lookup k (insert k n d)) ≡ n
next_seq-insert k n d = rw (lookup-insert k k n d) (rw (eq_refl k) refl)

send_chunks-from :
    (task_id : String) (chunks : List Chunk) (n : ℕ) (b : Buyer)
    → next_seq (lookup task_id b.input_seq) ≡ n
    → (send_chunks task_id chunks b).0 ≡ input_messages task_id n chunks
unfolding send_chunks send_input_chunk input_messages
send_chunks-from task_id [] n b h = refl
send_chunks-from task_id ((chunk, true) ∷ rest) n b h =
    let b1 = (send_input_chunk task_id chunk true b).1 in
    ap (λ k. input_message task_id k (chunk, true) ∷ (send_chunks task_id rest b1).0) h
    ∙ ap (λ ms. input_message task_id n (chunk, true) ∷ ms)
        (send_chunks-from task_id rest 0 b1 (
          next_seq-delete task_id
            (insert task_id (suc (next_seq (lookup task_id b.input_seq))) b.input_seq)))
send_chunks-from task_id ((chunk, false) ∷ rest) n b h =
    let b1 = (send_input_chunk task_id chunk false b).1 in
    ap (λ k. input_message task_id k (chunk, false) ∷ (send_chunks task_id rest b1).0) h
    ∙ ap (λ ms. input_message task_id n (chunk, false) ∷ ms)
        (send_chunks-from task_id rest (suc n) b1 (
          next_seq-insert task_id (suc (next_seq (lookup task_id b.input_seq))) b.input_seq
          ∙ ap suc h))

read-input_message :
    (task_id : String) (n : ℕ) (c : Chunk) (p : Provider)
    → handle_input_chunk (input_message task_id n c) p ≡ ok (take_chunk task_id (pos n) c p)
unfolding handle_input_chunk make_notification chunk_params payload_dict payload_from_dict item_as
    item get_or_as lookup as_str as_num as_bool as_obj
read-input_message task_id n (chunk, final) p = refl

-- The chunks of a task go out numbered from 0, and anew from 0 after a final one; and a provider
-- that is given one of these messages takes the chunk under its number and with its final flag.
pub send_chunks-numbered :
    (task_id : String) (chunks : List Chunk) (b : Buyer)
    → lookup task_id b.input_seq ≡ none
    → ((send_chunks task_id chunks b).0 ≡ input_messages task_id 0 chunks)
      × ((n : ℕ) (c : Chunk) (p : Provider)
          → handle_input_chunk (input_message task_id n c) p ≡ ok (take_chunk task_id (pos n) c p))
send_chunks-numbered task_id chunks b h =
    (send_chunks-from task_id chunks 0 b (ap next_seq h), read-input_message task_id)
