-- ===== src/Lib.antt =====
-- A file sharing program over libp2p: a peer registers a user name at a rendezvous point, finds the
-- other peers there, lists the files that a peer shares, and gets a file from it.
--
-- The parts and how they interact. A line of the user is read as a command (src/command.rs). The
-- client passes it to the event loop (src/network/mod.rs), which asks the behaviours of the swarm
-- for what the command needs, keeps it as pending, and answers it when the event that concludes it
-- comes in. Files are moved by a behaviour of the program's own, the crate libp2p-file-get
-- (file-get/src/lib.rs): it queues actions for the swarm, keeps for each connection which responses
-- are awaited and owed, and hears from the handler of each connection (file-get/src/handler.rs),
-- which opens and accepts the substreams whose upgrades (file-get/src/protocol.rs) move one file.
--
-- The files.
--   Common                 lists, maps as association lists, sets as lists, Boolean tests
--   FileGet.Types          ids, messages, events and failures of file-get/src/lib.rs
--   FileGet.Protocol       the records of file-get/src/protocol.rs
--   FileGet.Handler        `Handler` of file-get/src/handler.rs, its children what it hands out
--   FileGet.Connections    `Connection` and the searches for one
--   FileGet.Behaviour      the state `FileGet`, `send_request` and the address book
--   FileGet.Swarm          `on_swarm_event` and its four methods
--   FileGet.Reports        `on_connection_handler_event` and `poll`
--   FileGet.Driver         the calls that the application and the swarm make, and runs of them
--   FileGet.Tracking       where a request is kept, call by call and in runs
--   FileGet.Open           the connections that are open, as the swarm sees them, and who waits
--   FileGet.Live           how often a request may still be answered, by the books
--   FileGet.Contracts      what each method does, when it panics, and the order of the queue
--   FileGet.Upgrades       `upgrade_inbound` and `upgrade_outbound` of file-get/src/protocol.rs
--   Command                `from_str` of src/command.rs, the errors of src/error.rs
--   Command.RoundTrip, .Sound
--                          reading back what is typed
--   Network.Behaviour      `ComposedEvent` of src/network/behaviour.rs, the events of the swarm
--   Network.Types          the state of `EventLoop` of src/network/mod.rs, `get_peer_id`
--   Network.Commands       `handle_command`
--   Network.Events         `handle_event`
--   Network.Links, .Outcomes, .Handled, .Pending, .Answering, .Discovery, .Books
--                          the books of pending commands, and how they are answered
--   Network.Replies        which answers fit a command
--   Network.Settling, .Settled, .Loop, .Runs
--                          `run` over a sequence of commands and events
--   Network.Returns, .Failing, .Panics
--                          when the handlers return, fail, or panic
--   Network.Alone          an event while at most one command is pending
--   Network.Whole          `run` with the behaviour FileGet in its swarm, told, polled and heard
--   Network.Client         `Client`, the ids of its commands
--   Network.Startup        `new_network`, `init` and what it waits for
--   Network.Codec          `ListFilesCodec` of src/network/protocol.rs
--   Program                the session of src/bin/file-sharing.rs: lines, client, task and channels
--   Program.Dialogue       the dialogue with the user that the program implements
--
-- How the code is rendered. A method that takes `&mut self` takes the state and returns the new one.
-- An `expect` or a `debug_assert!` that can fail makes the result an `Outcome` or a `Step`; a flag
-- tells a debug build from a release build. The `?` of the event loop is the case `failed` of
-- `Step`, which ends the loop. A `HashMap` is an association list whose order stands for the
-- arbitrary order of iteration; a `HashSet` is a list, a `SmallVec` or `VecDeque` too. Ids of peers,
-- connections and channels are opaque and only compared: natural numbers. Request ids are 64-bit
-- counters and wrap, and `as usize` keeps 64 bits, as on a 64-bit target. Actions, answers and
-- calls of other behaviours are recorded in the state, in order. Every loop that is modelled runs
-- over a list, `run` over the sequence of what comes in and the two loops of the start over what
-- their `select!` yields, so nothing needs fuel; the program is a step relation, in which the lines,
-- the commands, the events and the answers interleave freely. A handler is one step of it.
--
-- What is a parameter: the futures that the handler polls (`PollNext`), the file system and the ids
-- that the request-response behaviour gives out (`World`), the namespaces of the rendezvous crate
-- (`Rendezvous`), the keys, the transport and the dial of the start (`Host`), and for the bytes on a
-- wire the messages of prost with the length-delimited codec (`Framing`) and the copy of a stream
-- (`Copy`). Where a theorem needs that a frame or a message is read as it was written, that a copy is
-- whole, or that 32 bytes are a secret key, it says so (`IsFaithful`, `IsWhole`, `IsSound`).
--
-- What is not modelled: which behaviour of the derived `ComposedBehaviour` of
-- src/network/behaviour.rs is polled, and when; generated code, logging, and the options of the
-- command line. An upgrade is one step, in which all bytes of the other side are given: how reads and
-- writes of the two sides interleave is left out. `shrink_to_fit` changes only the capacity of a
-- queue. The end of standard input, which ends the program, is the end of a sequence of steps.
pub mod Common
pub mod FileGet
pub mod Command
pub mod Network
pub mod Program
