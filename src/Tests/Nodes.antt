-- ===== src/Tests/Nodes.antt =====
-- Capabilities, eligibility and the fleet's limits.
use algod_loadb_mesh.Base.{
  ◌≡◌, refl, ◌↔◌, true, false, none, some, [], ◌∷◌, arith, codes, eqb, All, pos,
}
use algod_loadb_mesh.Domain.Capabilities.{CapabilityOverrides, clamp_limits, simulate_limits}
use algod_loadb_mesh.Domain.Eligible.{
  in_sync, state_window_covers, window_covers, round_eligible, eligible,
}
use algod_loadb_mesh.Domain.Eligible.Laws.{eligible_iff}
use algod_loadb_mesh.Domain.Eligible.Simulate.{rounds_named, Simulates, simulate_rounds_held}
use algod_loadb_mesh.Domain.Eligible.Spec.{Serves}
use algod_loadb_mesh.Domain.Fleet.{plain}
use algod_loadb_mesh.Domain.Request.{
  RequestClass, heavy, fits, SimulateBody, base_needs, span_of, apply_span, apply_simulate,
}
use algod_loadb_mesh.Domain.Upstream.{reachable}
use algod_loadb_mesh.Tests.Fixtures.{peer_node, history_node, read}

abbrev developer : CapabilityOverrides
developer = record {
  archival = some (record { kind = codes "full"; n = 0 });
  developer_api = some true;
  follow_mode = none;
  time_travel = none;
  simulate = none;
}

eligible_iff_example : (eligible peer_node read 5000 1 ≡ true) ↔ Serves peer_node read 5000 1
eligible_iff_example = eligible_iff peer_node read 5000 1 (omega arith)

-- A simulation at two past rounds and at the latest one.
abbrev body : SimulateBody
body = record {
  txn_groups = 1;
  round = 0;
  rounds = 4998 ∷ 0 ∷ 4997 ∷ [];
  extra_opcode_budget = pos 0;
  exec_trace_enable = false;
  allow_unnamed_resources = false;
  parallel_groups = false;
  skip_validity_window = false;
  rewrite_validity_window = false;
  protocol = [];
}

abbrev simulate_class : RequestClass
simulate_class = plain

simulates : Unit {0}
unfolding eligible round_eligible window_covers state_window_covers heavy in_sync fits reachable
    simulate_limits clamp_limits apply_simulate base_needs apply_span span_of eqb
simulates = tt

serves_body : eligible history_node (apply_simulate simulate_class body) 5000 1 ≡ true
unfolding simulates
serves_body = refl

simulate_rounds_held_example : All (Simulates history_node 5000 1) (rounds_named body)
simulate_rounds_held_example =
    simulate_rounds_held history_node simulate_class 5000 1 body (omega arith) refl refl serves_body
