-- ===== src/Lib.antt =====
-- A model of the example applications of VoiceBlender, programs in Go that steer calls on a media
-- server over its websocket interface: a contact centre, a PBX, a push-to-talk radio and an interpreter
-- between two languages. Each of
-- them keeps its live state in memory in registries that a mutex guards, and answers requests of
-- browsers and events of the media server by handlers that run concurrently.
--
-- The parts, the files that model them, and the code:
-- - ContactCentre/Registry: cmd/contact-centre/registry.go, the live calls with the queue of waiting
--   callers. Agents claim a queued call; subscribers get a signal at each change.
-- - ContactCentre/Transfers: cmd/contact-centre/transfer.go, the transfers in flight. The answer,
--   the completion and the cancellation of a transfer race, and the registry decides who wins.
-- - ContactCentre/Intercoms: cmd/contact-centre/intercom.go, the calls of supervisors to agents.
-- - ContactCentre/Agents: cmd/contact-centre/agents.go, the logged-in agents and their removal after a
--   grace period.
-- - ContactCentre/Handlers: cmd/contact-centre/transfer_handlers.go, and of main.go the hold of a call:
--   the start, the answer, the completion and the failures of a transfer, over all these registries.
--   A handler gives the new state, and the list of what it asks of the media server and tells whom.
-- - ContactCentre/CallLog: cmd/contact-centre/calllog.go, the ring buffer of ended calls.
-- - ContactCentre/Metrics: cmd/contact-centre/metrics.go, the figures of the panel that supervisors
--   see, from the log and the live calls.
-- - Pbx/Dialplan/Graph, Exec and Walk: cmd/pbx/dialplan_graph.go, dialplan_engine.go, and the start
--   of a gather node in dialplan_gather.go. An inbound call walks a graph of nodes until a node rings
--   a device, waits for an event or hangs up.
-- - Pbx/Dialplan/Gather and Speech: cmd/pbx/dialplan_gather.go and dialplan_speech.go, the keys, the
--   timer and the transcripts of an open menu, which lead to the next walk.
-- - Pbx/Forks: cmd/pbx/dialplan_fork.go, a call that rings several devices, of which one wins.
-- - Pbx/Bridges and Calls: cmd/pbx/dialplan.go, the calls between two legs and the events of the legs;
--   an answered fork becomes such a call.
-- - Interpreter/Turns: cmd/interpreter/interpret.go, and what it keeps in session.go: one person's
--   turns on their way to the other, translated and synthesized before they end.
-- - Interpreter/Sessions: cmd/interpreter/session.go, the conversations, who is in them, and when they
--   are ended.
-- - Interpreter/Langs: cmd/interpreter/langs.go and voices.go, the languages on offer.
-- - Ptt/Presence and Floor: cmd/ptt/presence.go and floor.go, who is present in which room and who
--   speaks in it.
-- - Ptt/Rooms: cmd/ptt/rooms.go, the rooms, who was admitted to them, and what the lobby shows.
-- - Base: lists, options, tables and integers over the native numbers, with their Boolean tests.
--
-- Correspondence. A struct is a record, a set of string constants a data type, a map an association
-- list with its first entry in force, a method that holds its mutex throughout one function. A
-- schedule of concurrent handlers is a list of such calls, and `run` folds `step` over it; where a
-- handler of the push-to-talk floor releases its mutex half-way, the halves are functions of their
-- own (end_claim and teardown, press_claim and press_open), and so are the sections of bindLeg and
-- unbindLeg of the interpreter (bind_part and bind_index, unbind_part and unbind_index), of which
-- bind_leg and unbind_leg are the ones without interruption. Definitions have the names of the Go
-- functions in snake case. Random ids are arguments: `none` is a generator that fails, and that a
-- fresh id is not in use is the hypothesis `AreFresh`. Times are arguments too.
--
-- The media server, regular expressions and the stores of extensions and trunks are not in these
-- files; the walk takes them as the fields of `Pbx.Dialplan.Exec.Env`. A request to the media server
-- is an `Outcome` of the walk, an `Act` of a handler of transfers, or a message in a session's outbox.
-- The answers to the requests of those handlers are fields of `ContactCentre.Handlers.Env`; requests
-- whose answer they only log and which move no leg, as the routing of a room, are left out.
-- The handlers of transfers are run one after another, each to its end, each with its own answers of
-- the server, and between them the calls, agents, intercoms and sessions change as other handlers
-- change them; races between them stand at the registry of transfers, in
-- ContactCentre/Transfers/Races.
--
-- Bounds. The walk has fuel because nodes of some kinds restart its step count: in a graph without
-- them 52 visits are enough (a walk stops at the visit after step 50), and with them a walk may
-- have no end. Both are theorems. All other loops are structural.
--
-- Where Go divides floating-point numbers, the metrics keep dividend and divisor, and durations are
-- integers without Go's limit of 64 bits. Go's text functions and the answers of Redis are arguments.
--
-- Not modelled: the other HTTP handlers, the goroutine of a waiting call, which listens on several
-- channels at once, authentication, Redis and the browser front ends, which are I/O; the
-- sorted lists of agents, of supervisors and of rooms; the routing of a new call in the PBX and its
-- stores; the load of the rooms at the start; the translation and the media of the interpreter; the
-- IVR demo.
pub mod Base
pub mod ContactCentre
pub mod Pbx
pub mod Ptt
pub mod Interpreter
