-- ===== src/Lib.antt =====
-- kamiroh: actors that converse over endpoints.
--
-- kamiroh lets actors on several machines hold exchanges of turns, under allowlists and deadlines.
-- The core is free of I/O: the domain (crates/kamiroh-domain) has the values, the messages and the
-- turn machine; the application layer (crates/kamiroh-app) has the gate that every delivery
-- passes, the phone by which an application opens exchanges, the stock parties, and LocalRuntime,
-- which hosts actors; both speak through the traits of crates/kamiroh-ports. The memory adapter
-- (crates/kamiroh-adapter-memory) implements those traits for tests, the Iroh adapter
-- (crates/kamiroh-adapter-iroh) over QUIC connections, and the Kameo adapter
-- (crates/kamiroh-adapter-kameo) hosts actors as LocalRuntime does, each with its own mailbox.
--
-- The files:
--   Common            shared types and lemmas; Common/Assoc hash maps, Common/Sets sets
--   Domain            crates/kamiroh-domain/src: Hex (hex.rs), Address (endpoint.rs, actor.rs),
--                     Allowlist, Deadline, Secret, Vocabulary, Protocol (protocol.rs, openings
--                     and completions) and TurnState (protocol.rs, the machine)
--   Ports             crates/kamiroh-ports/src/lib.rs: the traits as records of operations
--   App               crates/kamiroh-app/src: Admission, Inbound, Conversation, Phone, Wait,
--                     Parties and Runtime (runtime.rs), one module per file
--   App/Runtime       the state and the monad of LocalRuntime; Manage has install, admit, revoke,
--                     fail_exchange and sweep_dead, Due has earliest_due, Turns and Step have the
--                     branches of step, from the innermost out
--   App/Exchanging, App/Outline  what a hosted actor promises of a turn, and a runtime of a harness
--                     command, which both runtimes are compared with
--   Memory            crates/kamiroh-adapter-memory/src: Net and Faults (lib.rs), Clock
--                     (testing.rs), World (the adapter as an implementation of the ports)
--   Kameo             crates/kamiroh-adapter-kameo/src/lib.rs: Host (the state of a host and its
--                     failures), Timers (turns, acks, timers and their reports), Runtime (the
--                     roster) and Deliver (the handler of a delivery, harness commands, the pump)
--   Iroh              crates/kamiroh-adapter-iroh/src/lib.rs: Frame, Errors, Shared (the state), Net
--                     (IrohNet), Sending, Reading (the reader), Deaths (watch_connection and
--                     IrohDeathWatch), World (the ports), External (what is called of other
--                     packages), Laws (their documented behaviour), Steps (the interleavings)
--   Exchange          the phone, the runtime and the memory network, composed
--   Examples          tests on concrete values
-- The other modules below a component hold the theorems on what their names say.
--
-- How the code is rendered. A method that changes its receiver is a function that returns the
-- receiver it leaves, beside its result. What is shared behind Arc<Mutex<...>> (the network, the
-- clock, the death watches) is one world state, which every port operation takes and returns; a
-- port's error is the text that to_string gives. An early return by `?` is a bind of the monad M
-- of App/Runtime, which keeps the state reached. A String is the list of its code points. A
-- HashMap is an association list and a set a list without repeats, in any order. A Duration and an
-- instant are natural numbers of nanoseconds; TestInstant wraps at 2^128, the generic Timer's
-- instants do not. A u8 counter wraps at 256.
--
-- Concurrency. A future is polled; between two polls the world may change by anything, so a wait
-- takes the list of those changes (`wakeups`) and is pending when they are used up. That list is
-- the only bound on a loop; every other loop is structural. A waker is the number of the task it
-- wakes, and the wake-up calls are logged in `woken`. An observer is the list of the events that
-- it was told.
--
-- Panics. The `expect` of a stock party is the result none. The `expect` of step on an unarmed
-- deadline is an error of the model.
--
-- The Kameo host. The framework runs the handlers of one host one at a time, so a run of a host is a
-- list of messages. A timer task is the report that it will send; a report may come at any time and
-- from any task, aborted or not, and from none at all. Epochs wrap at 2^64.
--
-- The Kameo runtime. Its roster holds the hosts; a handler runs on its host together with what it
-- shares with the runtime, and a host that was stopped is not put back. Stopping an actor aborts its
-- pump, and the drop of the inbox unbinds the address at once.
--
-- The Iroh adapter. The spawned tasks of a net, a reader and a watch for each connection, stand in
-- its state, and a call that waits is the value that its future comes to; a run of a net is any
-- sequence of calls, of turns of its tasks and of moves of the network (Iroh/Steps). QUIC endpoints,
-- connections and streams, node ids, postcard and tokio's unbounded channels are the fields of
-- Iroh/External. A theorem that relies on them names what it relies on: that postcard reads back
-- what it wrote, that a dialed connection proves the dialed key, that read_to_end keeps its limit,
-- and that channels are queues. A node id that does not display as hexadecimal digits is the result
-- none, the panic of the source. The retry of a send is a loop of two attempts; a reader reads for
-- as many streams as it is given.
--
-- What is not modelled: block_on and its watchdog thread, which run on OS threads; TokioTimer and
-- what tokio and kameo do with aborted tasks; IrohNet::addr, which only waits; the end of the accept
-- loop when the last handle is dropped; Display texts other than those of an address and of the
-- adapters' and the runtime's errors; the accessors; tests.
pub mod App
pub mod Common
pub mod Domain
pub mod Examples
pub mod Exchange
pub mod Iroh
pub mod Kameo
pub mod Memory
pub mod Ports
