-- ===== src/Tests/Watching.antt =====
-- The fleet's limits, the path policy and the judge of a node's health.
use algod_loadb_mesh.Base.{
  ℕ, ◌+◌, ◌≤◌, ◌≡◌, refl, ◌⊎◌, true, false, none, some, List, [], ◌∷◌, arith, ltb, if◌then◌else◌,
  sub_time, codes, eqb, ltb_bytes, Among, pos, leb_ℤ, add_word,
}
use algod_loadb_mesh.Domain.Capabilities.{clamp_limits, simulate_limits}
use algod_loadb_mesh.Domain.Eligible.{
  in_sync, state_window_covers, window_covers, round_eligible, eligible,
}
use algod_loadb_mesh.Domain.Fleet.{
  FleetSimulateLimitsReply, plain, simulate_limits_above, note, search_fleet, reply_of,
  fleet_simulate_limits,
}
use algod_loadb_mesh.Domain.Fleet.Promise.{IsAllowed, IsHeld, fleet_limits_kept}
use algod_loadb_mesh.Domain.Judge.{
  new_return_hysteresis, observe, current, SyncJudge, new_sync_judge, judge_reachable, judge,
}
use algod_loadb_mesh.Domain.Judge.Trust.{observe_synced_n, observe_regains, judge_synced}
use algod_loadb_mesh.Domain.Path.{PathStat, PathPolicy, best_path, choose}
use algod_loadb_mesh.Domain.Path.Policy.{IsKeptOrBetter, choose_leaves}
use algod_loadb_mesh.Domain.Request.{heavy, fits, SimulateBody, base_needs, apply_simulate}
use algod_loadb_mesh.Domain.Upstream.{offline, lagging, synced, reachable, Upstream}
use algod_loadb_mesh.Tests.Fixtures.{history_node}

abbrev fleet_limits : FleetSimulateLimitsReply
fleet_limits = record {
  developer_api = false;
  max_extra_opcode_budget = 320000;
  max_rounds = 8;
  max_txn_groups = 16;
  resource_limit_multiplier = 4;
  time_travel = true;
  max_exec_trace_bytes = 0;
  time_limit_seconds = 30;
}

answers : Unit {0}
unfolding fleet_simulate_limits search_fleet note reply_of simulate_limits_above simulate_limits
    clamp_limits eligible round_eligible window_covers state_window_covers heavy in_sync fits
    reachable eqb ltb_bytes
answers = tt

run : fleet_simulate_limits (history_node ∷ []) 5000 1 ≡ some fleet_limits
unfolding answers
run = refl

fleet_limits_kept_example :
    (u : Upstream ℕ) × Among u (history_node ∷ [])
    × (eligible u plain 5000 1 ≡ true)
    × ((b : SimulateBody)
        → IsAllowed fleet_limits (base_needs b)
        → IsHeld u (apply_simulate plain b)
        → eligible u (apply_simulate plain b) 5000 1 ≡ true)
fleet_limits_kept_example =
    fleet_limits_kept 5000 1 (history_node ∷ []) fleet_limits (omega arith, tt) run

-- A slow path and a quick one.
abbrev slow : PathStat
slow = record { addr = codes "10.0.0.1:1"; rtt = 100; alive = true; deaf = false }

abbrev quick : PathStat
quick = record { addr = codes "10.0.0.2:1"; rtt = 50; alive = true; deaf = false }

abbrev paths : List PathStat
paths = slow ∷ quick ∷ []

abbrev policy : PathPolicy
policy = record { probe_interval = 10 }

choose_leaves_example :
    IsKeptOrBetter policy 1000 paths 900 0 slow (choose policy 1000 paths (some 0) 900).0
choose_leaves_example = choose_leaves policy 1000 paths 900 0 slow refl refl

dead_run : (choose policy 1000 (record slow { alive = false } ∷ []) none 900).0 ≡ none
unfolding choose best_path
dead_run = refl

abbrev watch : SyncJudge
watch = new_sync_judge 1 (pos 2000) 3

observe_regains_example :
    (observe (observe_synced_n 1 (observe (new_return_hysteresis 3) offline).0) synced).1
    ≡ (if ltb (1 + 1) 3 then lagging else synced)
observe_regains_example =
    observe_regains (new_return_hysteresis 3) offline 1 (omega arith) (λ e. cc)

judges : (judge watch 100 true 49 50).1 ≡ synced
unfolding judge judge_reachable observe current
judges = refl

judge_synced_example :
    (true ≡ true)
    × ((50 ≤ add_word 49 1)
        ⊎ ((50 ≤ add_word (add_word 49 1) 1) × (leb_ℤ (pos 2000) (sub_time 100 100) ≡ false)))
judge_synced_example = judge_synced watch 100 true 49 50 judges

abbrev seen_watch : SyncJudge
seen_watch = record watch { seen = true; last_round = 49 }
