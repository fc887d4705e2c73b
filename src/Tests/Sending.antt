-- ===== src/Tests/Sending.antt =====
-- Attempts that all fail, and a node that serves the rounds from 3 on.
use mathlib.Core.List.{Mem}
use algod_loadb_mesh.Base.{
  ℕ, ◌≤◌, ◌≡◌, refl, inl, Bool, true, false, none, some, arith, leb, negsuc,
}
use algod_loadb_mesh.App.Forward.{Attempt, Env, forward_selected}
use algod_loadb_mesh.App.Forward.Answered.{IsForwarded, forward_selected_answers}
use algod_loadb_mesh.App.Forward.Complete.{IsPatient, forward_selected_complete}
use algod_loadb_mesh.App.Monitor.Oldest.{
  oldest, note_measured, bisect, probe_oldest, check_edge, verify_oldest,
}
use algod_loadb_mesh.App.Monitor.Oldest.Least.{
  IsServing, IsOldest, probe_oldest_least, verify_oldest_served,
}
use algod_loadb_mesh.App.Router.{sel}
use algod_loadb_mesh.Domain.Select.{score}
use algod_loadb_mesh.Tests.Choosing.{chosen_local, run, read-eligible, router_options}
use algod_loadb_mesh.Tests.Fixtures.{
  nat_float, nat_float-IsOrdered, peer_node, fleet, no_weights, read,
}
use algod_loadb_mesh.Tests.Mesh.{idle_node}

-- Every node answers 502, which the client does not get to see.
abbrev lost : Attempt
lost = record {
  out = record { status = 502; err = none; headers_sent = false; duration = 1; retry_after = 0 };
  gone = false;
  cut = false;
  expired = false;
}

abbrev outage : Env ℕ
outage = record {
  forward = λ k. lost;
  time_left = λ k. true;
  checked = none;
  rnd = none;
  time_left_late = true;
  cut_late = false;
}

forward_selected_answers_example :
    IsForwarded read outage 4
      (forward_selected router_options (negsuc 0) read outage true lost chosen_local)
forward_selected_answers_example =
    forward_selected_answers router_options (negsuc 0) read outage true lost chosen_local

patient : IsPatient read outage
patient = record {
  has_failed_at = λ i. refl;
  not_begun = λ i. refl;
  stays = λ i. refl;
  not_cut = λ i. refl;
  not_expired = λ i. refl;
  has_time = λ i. refl;
}

sel_run : sel router_options fleet read 5000 none ≡ some chosen_local
unfolding sel
sel_run = run

forward_selected_complete_example :
    Mem
      (record peer_node { score = score peer_node read 5000 no_weights })
      (forward_selected router_options (negsuc 0) read outage true lost chosen_local).sent
forward_selected_complete_example =
    forward_selected_complete router_options read outage lost nat_float-IsOrdered 0 5000 fleet none
      chosen_local patient tt sel_run peer_node (inl refl) (read-eligible peer_node (inl refl))

abbrev from_three : ℕ → Bool
from_three r = leb 3 r

serving : IsServing (λ r. some (from_three r)) from_three
serving = record { answers_all = λ r. refl; goes_on = λ r s h k. ground arith }

probe_oldest_least_example :
    (m : ℕ) × (probe_oldest (λ r. some (from_three r)) 100 ≡ oldest m)
    × (check_edge (λ r. some (from_three r)) 1 100 ≡ oldest m)
    × IsOldest from_three m
probe_oldest_least_example =
    probe_oldest_least (λ r. some (from_three r)) from_three serving 1 100 refl (omega arith)

claims :
    (verify_oldest (λ r. some (from_three r)) none true idle_node idle_node).caps.oldest_round
    ≤ 4000
unfolding verify_oldest probe_oldest bisect note_measured
claims = omega arith

verify_oldest_served_example : from_three 4000 ≡ true
verify_oldest_served_example =
    verify_oldest_served (λ r. some (from_three r)) from_three serving none true idle_node idle_node
      4000 refl refl refl (omega arith) refl claims
