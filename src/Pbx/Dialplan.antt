-- ===== src/Pbx/Dialplan.antt =====
-- The inbound dial plan: the graph (cmd/pbx/dialplan_graph.go), the walk that an inbound call makes
-- through it (dialplan_engine.go), and the menus, which collect digits (dialplan_gather.go) and
-- listen to speech (dialplan_speech.go).
pub mod Graph
pub mod Exec
pub mod Walk
pub mod Speech
pub mod Gather
