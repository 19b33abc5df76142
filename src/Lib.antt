-- ===== src/Lib.antt =====
-- Verification of the reference SDK of the Agent Compute Market Protocol (`src/acmp`).
--
-- The program. A buyer sends JSON-RPC requests to providers and to an escrow agent. The escrow
-- agent (src/acmp/escrow.py) locks a buyer's credit and pays it out against releases, claims whose
-- challenge window runs out, reclaims and expiry; each party talks to it through `EscrowClient`,
-- which is built on the request method of a buyer (src/acmp/buyer.py). Offers are negotiated
-- beforehand (src/acmp/negotiation.py). A provider (src/acmp/provider.py) runs the handlers of its
-- capabilities and streams chunks both ways; a buyer can have a whole DAG of tasks invoked in the
-- order of its dependencies (src/acmp/dag.py). Messages and errors have one wire form
-- (src/acmp/messages.py, src/acmp/errors.py), and travel over a pair of queues
-- (src/acmp/transport.py).
--
-- The files.
--   Prelude: library names, Boolean tests, integers (Prelude/Int), dictionaries in insertion order
--     (Prelude/Dict), sets of texts (Prelude/Sets) and the keys of payouts as text (Prelude/Text).
--   Json: JSON values; a `dict[str, Any]` is an `Object`.
--   Exec: a Python call as a value. It returns, raises an `AcmpError` or stops with any other
--     exception, and hands back the state that it has written until then. Exec/Worded: calls whose
--     errors carry a message.
--   Access: `d[k]`, `d.get(k)` and the type that a reader expects. Access/Optional: `put_if_set`.
--   Errors, with Errors/Wire and Errors/RoundTrip: the codes, `AcmpError`, `to_jsonrpc` and
--     `from_jsonrpc` of src/acmp/errors.py.
--   Messages: the envelopes of src/acmp/messages.py; Messages/Task: `Payload`, `Task`, `Result`.
--   TaskContext: `TaskContext` of src/acmp/provider.py; its children are about the chunks that come
--     in (Delivery) and the chunks that go out (Emission).
--   Transport: `_QueueEndpoint` and the pair of src/acmp/transport.py; Transport/Calls: runs of the
--     two ends; Transport/Fifo: proofs.
--   Buyer: `Buyer` of src/acmp/buyer.py: the futures of requests, the reader loop, `invoke`, `cancel`
--     and `send_input_chunk`; the children are proofs about responses (Reader), input chunks (Chunks)
--     and the end of `invoke` (Deadline).
--   Negotiation: the offer messages and `Negotiator` of src/acmp/negotiation.py.
--   Provider: the state of `Provider` of src/acmp/provider.py, without the handlers of its
--     capabilities, and the offer exchange. Its two handlers change the state before they await
--     anything, so a run is a list of events; Provider/Quotes and Provider/Acceptance are proofs.
--     Provider/Invoke: `_handle_invoke`, `_check_features` and `_execute`, cut where the code awaits
--     (Replay and Priced are proofs); Provider/Inputs: cancellation, input chunks, the dispatch on
--     the method and `register` (Ahead is a proof); Provider/Session: the provider with its open runs,
--     as `serve_forever` lets messages and runs interleave (its children are proofs).
--   Escrow: the data of src/acmp/escrow.py. Below it
--     Ledger: `CreditLedger`; Ledger/Laws: the ledger as a sum of money;
--     Cell: one escrow object with the ledger, the guards, `_auto_release`, `_auto_reclaim_expiry`
--       and `_effective_state`; its children hold well-formedness (Sound), the cases of time
--       (Steps), what time leaves alone (Frame), money (Worth) and the clock (Timeline);
--     Operations: the `op` of each mutating handler as guards, one commit and one reply; its
--       children are named for what they prove, and Mutation treats the five as one;
--     Agent: `EscrowAgent` with `_run_cached` and the handlers; Agent/Dispatch: `_dispatch` and
--       `serve`; Agent/Caching, Agent/Handling and Agent/Serving: the cache, the handlers and the
--       whole service as rules; the other children are proofs;
--     Client: `EscrowClient` and its result types; Client/Remote: a client's request to the agent.
--   Dag: the data of src/acmp/dag.py with its serialisation (RoundTrip is a proof). Below it
--     Search: the depth-first search of `validate_dag`; Search/Order: walks, cycles and orders of a
--       graph as reference notions; Search/Passed and Search/Correct are proofs;
--     Validate: `validate_dag`; Validate/Plan: the reference notion of a plan that can run; Edges,
--       References and Judged are proofs;
--     Fields and Resolve: `_extract_field` and `resolve_input`; Resolve/Finds is a proof;
--     Orchestrator: `DagOrchestrator.run` as rounds; its children hold the invariant (Invariant),
--       what keeps it (Launch, Release, Finish, Batches), where it starts (Start), whole runs (Run)
--       and the walks that can be reached (Reached).
--   Examples, Dag/Examples, Provider/Examples and Escrow/Examples: test data, runs, and each
--     statement at concrete values.
--
-- Boundaries of the model.
--   Amounts, times and counts are exact integers (an amount of CU in a fixed smallest unit); the
--   rounding of Python's floats is not modelled.
--   A value of another JSON type than the documented one stops the reader with a `TypeError` where
--   it is read; Python may notice later or not at all. `null` counts as an absent optional value.
--   The readings of the clock and the new escrow ids come from outside, one `Moment` for each
--   request: `_effective_state` reads the clock once and `escrowClaim` a second time.
--   `Printing` stands for the texts that Python's `str(exc)` and an f-string give.
--   What is sent over a transport is the list that a call returns. No handler of the agent awaits,
--   so the connections interleave message by message, in any order, and a run of the agent is a list
--   of arrivals, each on its connection. An exception that leaves `_dispatch` ends the loop of that
--   connection, and what arrives on it later is not read.
--   Handlers of the agent mutate an escrow object that stays in `_escrows` under its id: a handler
--   looks the object up, and what it wrote is stored under the same id. Replies and error data name
--   the escrow by its own `escrow_id`, which is the id in the request.
--   `await` cuts a function into what happens before and after it. The order in which the event loop
--     goes on is a parameter: the list of messages that a reader reads, the batch that
--     `asyncio.wait` hands back, the answer of an escrow, the way a handler ends. A provider's
--     `_dispatch` of one message may stand between any two parts of another.
--   Fuel: the search of a DAG has as much as there are tasks, and each call of `visit` enters a task
--     that was not visited; the rounds of `run` have one for each task and one to find that nothing is
--     left, and each round ends a task; the loop that releases input chunks has the length of the
--     buffer, from which each turn takes a chunk. Python's limit on the depth of recursion, which the
--     recursive `visit` could reach on a very deep graph, is not modelled.
--   A field path knows the ASCII digits only; Python's `\d` matches those of other scripts too.
--   The hash of an output, the texts of f-strings, the handlers of capabilities and the callbacks of a
--     buyer are parameters or recorded as calls.
--
-- Not modelled: src/acmp/ws_transport.py, which is input and output over a third-party library;
-- the timer of the keep-alive in src/acmp/provider.py and the start and stop of the reader task in
-- src/acmp/buyer.py, which only order the calls that are modelled;
-- src/acmp/__init__.py, the examples and the tests.
pub mod Prelude
pub mod Json
pub mod Errors
pub mod Exec
pub mod Access
pub mod Messages
pub mod TaskContext
pub mod Transport
pub mod Buyer
pub mod Negotiation
pub mod Provider
pub mod Escrow
pub mod Dag
pub mod Examples
