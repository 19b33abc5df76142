-- ===== src/TaskContext.antt =====
-- `TaskContext` of src/acmp/provider.py: the streamed output and the reordered input of one task.
pub mod Delivery
pub mod Emission
use sdk_reference.Prelude.{
  ℕ, zero, suc, String, Bool, true, false, not, Option, none, some, List, [], ◌∷◌, ◌++◌, ◌||◌,
  if◌then◌else◌,
}
use sdk_reference.Prelude.Int.{ℤ, pos, eqb_ℤ}
use sdk_reference.Prelude.Sets.{length}
use sdk_reference.Json.{Json, bool, num, str, Object}
use sdk_reference.Exec.{Outcome, ok, fault, runtime_error, Exec}
use sdk_reference.Access.Optional.{put, attribute}
use sdk_reference.Messages.{make_notification}
use sdk_reference.Messages.Task.{Payload, payload_json, Task}

-- A `dict` with integer keys.
module _ {A : Type 0} where
  unfoldable pub find : ℤ → List (ℤ × A) → Option A
  find k [] = none
  find k ((j, a) ∷ d) = if eqb_ℤ j k then some a else find k d

  unfoldable pub remove : ℤ → List (ℤ × A) → List (ℤ × A)
  remove k [] = []
  remove k ((j, a) ∷ d) = let rest = remove k d in if eqb_ℤ j k then rest else (j, a) ∷ rest

  -- `d[k] = a`; nothing reads the order of the keys.
  unfoldable pub store : ℤ → A → List (ℤ × A) → List (ℤ × A)
  store k a d = (k, a) ∷ remove k d

-- A chunk and its final flag.
abbrev pub Chunk : Type 0
Chunk = Payload × Bool

pub record TaskContext : Type 0 where
  pub task : Task
  pub out_seq : ℕ
  pub emitted_chunks : ℕ
  pub output_final_sent : Bool
  pub in_expected : ℕ
  pub in_buffer : List (ℤ × Chunk)
  pub in_queue : List Chunk
  pub cancel_event : Bool

abbrev pub new_context : Task → TaskContext
new_context task = record {
  task = task;
  out_seq = 0;
  emitted_chunks = 0;
  output_final_sent = false;
  in_expected = 0;
  in_buffer = [];
  in_queue = [];
  cancel_event = false;
}

-- The parameters of `acmp/streamChunk` and `acmp/inputChunk`.
unfoldable pub chunk_params : String → ℤ → Payload → Bool → Object
chunk_params task_id seq chunk final =
    ("task_id", str task_id)
    ∷ ("seq", num seq)
    ∷ ("chunk", payload_json chunk)
    ∷ ("final", bool final)
    ∷ []

-- The context after a chunk has been sent.
abbrev pub emitted : Bool → TaskContext → TaskContext
emitted final c = record c {
  out_seq = suc c.out_seq;
  emitted_chunks = suc c.emitted_chunks;
  output_final_sent = final || c.output_final_sent;
}

-- `emit`, with the notification that it sends.
unfoldable pub emit : Payload → Bool → Exec TaskContext (List Object)
emit chunk final c =
    if not c.task.stream
    then (fault (runtime_error "handler emitted a chunk but the buyer did not set stream=true"), c)
    else if c.output_final_sent
    then (fault (runtime_error "handler emitted a chunk after final=True"), c)
    else (
      ok (
          make_notification "acmp/streamChunk"
            (chunk_params c.task.task_id (pos c.out_seq) chunk final)
          ∷ []),
      emitted final c,
    )

unfoldable pub heartbeat : Option ℤ → Option String → TaskContext → List Object
heartbeat progress detail c =
    make_notification "acmp/heartbeat" (
      put "detail" (attribute str detail)
        (put "progress" (attribute num progress) (("task_id", str c.task.task_id) ∷ [])))
    ∷ []

-- One turn of the loop of `_feed_input`.
unfoldable pub release_next : Chunk → TaskContext → TaskContext
release_next item c = record c {
  in_buffer = remove (pos c.in_expected) c.in_buffer;
  in_expected = suc c.in_expected;
  in_queue = c.in_queue ++ item ∷ [];
}

abbrev pub while_found : Option Chunk → TaskContext → (Chunk → TaskContext) → TaskContext
while_found none c again = c
while_found (some item) c again = again item

-- The loop, on fuel for each chunk in the buffer.
unfoldable pub drain : ℕ → TaskContext → TaskContext
drain zero c = c
drain (suc n) c =
    while_found (find (pos c.in_expected) c.in_buffer) c (λ item. drain n (release_next item c))

unfoldable pub feed_input : ℤ → Chunk → TaskContext → TaskContext
feed_input seq item c =
    let c' : TaskContext = record c { in_buffer = store seq item c.in_buffer } in
    drain (length c'.in_buffer) c'

-- Chunks in the order in which they arrive.
unfoldable pub feed_all : List (ℤ × Chunk) → TaskContext → TaskContext
feed_all [] c = c
feed_all ((seq, item) ∷ rest) c = feed_all rest (feed_input seq item c)
