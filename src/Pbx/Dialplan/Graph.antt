-- ===== src/Pbx/Dialplan/Graph.antt =====
-- cmd/pbx/dialplan_graph.go: the directed graph that the operator edits.
use example_applications.Base.{
  String, ◌==◌, string_eq, Bool, true, false, not, ◌&&◌, Option, none, some, List, [], ◌∷◌, Table,
  lookup, if◌then◌else◌,
}

-- The node types; any other text is `other`.
pub data NodeType : Type 0 where
  start match ext ivr reject forward play tts answer gather wait other : NodeType

abbrev pub is_start : NodeType → Bool
is_start start = true
is_start _ = false

abbrev pub port_default : String
port_default = "default"

abbrev pub port_out : String
port_out = "out"

abbrev pub port_match : String
port_match = "match"

abbrev pub port_nomatch : String
port_nomatch = "nomatch"

abbrev pub port_next : String
port_next = "next"

abbrev pub port_noanswer : String
port_noanswer = "noanswer"

-- A node without its canvas coordinates, which only the editor reads.
pub record Node : Type 0 where
  pub id : String
  pub type : NodeType
  pub params : Table String

pub record Edge : Type 0 where
  pub from : String
  pub port : String
  pub to : String

pub record Graph : Type 0 where
  pub nodes : List Node
  pub edges : List Edge

find_node : (Node → Bool) → List Node → Option Node
find_node p [] = none
find_node p (n ∷ ns) = if p n then some n else find_node p ns

unfoldable pub node : Graph → String → Option Node
unfolding find_node
node g id = find_node (λ n. n.id == id) g.nodes

-- `start`
unfoldable pub start_node : Graph → Option Node
unfolding find_node
start_node g = find_node (λ n. is_start n.type) g.nodes

target_in : List Edge → String → String → String
target_in [] from port = ""
target_in (e ∷ es) from port =
    if e.from == from && e.port == port then e.to else target_in es from port

unfoldable pub edge_to : Graph → String → String → String
unfolding target_in
edge_to g from port = target_in g.edges from port

-- The method on a node that is there; a missing key and an empty value both give the default.
unfoldable pub param : Node → String → String → String
param n key def = elim (lookup key n.params) [
  | none ↦ def
  | some v ↦ if not (v == "") then v else def
]

unfoldable pub default_dialplan : Graph
default_dialplan = record {
  nodes =
      record { id = "start"; type = start; params = [] }
      ∷ record { id = "ivr"; type = ivr; params = [] }
      ∷ [];
  edges = record { from = "start"; port = port_out; to = "ivr" } ∷ [];
}
