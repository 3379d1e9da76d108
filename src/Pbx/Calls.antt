-- ===== src/Pbx/Calls.antt =====
-- cmd/pbx/dialplan.go and dialplan_fork.go: the data of a call between two legs, of a fork that rings
-- several devices, and what their handlers ask of the media server and of the other registries.
use example_applications.Base.{
  ℕ, String, ◌==◌, string_eq, Bool, true, Option, List, Table, lookup, insert, erase, if◌then◌else◌,
}
use mathlib.Core.Option
use example_applications.Base.Int.{ℤ}

-- `bridge`. `resumes` says whether onNoAnswer is set.
pub record Bridge : Type 0 where
  pub room_id : String
  pub tenant_id : String
  pub a_leg : String
  pub b_leg : String
  pub from : String
  pub to : String
  pub kind : String
  pub via : String
  pub started_at : ℕ
  pub caller_filters : List String
  pub callee_filters : List String
  pub resumes : Bool
  pub caller_answered : Bool
  pub ringback_pb : String
  pub connected : Bool
  pub connected_at : ℕ
  pub moh : Table String

-- `peerOf`
unfoldable pub peer_of : Bridge → String → String
peer_of b leg = if leg == b.a_leg then b.b_leg else b.a_leg

-- setMoH
unfoldable pub set_moh : Bridge → String → String → Bridge
set_moh b leg pb = record b { moh = insert leg pb b.moh }

-- takeMoH
unfoldable pub take_moh : Bridge → String → Bridge × String
take_moh b leg = (record b { moh = erase leg b.moh }, Option.get_or (lookup leg b.moh) "")

unfoldable pub take_ringback : Bridge → Bridge × String
take_ringback b = (record b { ringback_pb = "" }, b.ringback_pb)

unfoldable pub mark_answered : Bridge → Bridge
mark_answered b = record b { caller_answered = true }

unfoldable pub mark_connected : Bridge → ℕ → Bridge
mark_connected b now = record b { connected = true; connected_at = now }

-- forkCand: a softphone's session, or none for a SIP leg.
pub record Cand : Type 0 where
  pub number : String
  pub sess : Option ℕ

-- forkGroup
pub record Group : Type 0 where
  pub room_id : String
  pub tenant_id : String
  pub a_leg : String
  pub caller_answered : Bool
  pub from : String
  pub to : String
  pub via : String
  pub kind : String
  pub ringback_pb : String
  pub started_at : ℕ
  pub caller_filters : List String
  pub resumes : Bool
  pub candidates : Table Cand
  pub won : Bool
  pub ring_timer : Bool

-- callMeta, without the codecs and filters that are passed on to the outbound leg.
pub record CallMeta : Type 0 where
  pub tenant_id : String
  pub from : String
  pub to : String
  pub kind : String
  pub via : String
  pub caller_filters : List String
  pub ring_time : ℤ
  pub resumes : Bool

-- What a handler does besides changing its own record, in the order of the code.
pub data Effect : Type 0 where
  create_room delete_room : String → Effect
  play_ringback ring_leg : String → Effect
  stop_playback hold_music : String → String → Effect
  create_leg : String → ℤ → Effect
  answer_leg : String → List String → Effect
  add_to_room hang_up : String → String → Effect
  detach_or_hang_up : String → String → String → Effect
  set_ring ring_device stop_ring : ℕ → String → Effect
  device_in_call : ℕ → String → String → Effect
  notify_caller : String → String → String → Effect
  add_fork : Group → Effect
  drop_fork : Effect
  drop_fork_leg : String → Effect
  add_bridge : Bridge → Effect
  resume_plan : Effect
  delete_call delete_exec : String → Effect
