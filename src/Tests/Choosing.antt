-- ===== src/Tests/Choosing.antt =====
-- Selections, from a fleet of a peer, a node with the history and the local node.
use algod_loadb_mesh.Base.{
  ℕ, ◌≡◌, refl, inl, inr, true, false, none, some, Perm, List, [], ◌∷◌, map, arith, codes, eqb,
  ltb_bytes, keep, Among, pos, ◌≤ℤ◌, eqb_ℤ, insert_by, sort_by, lookup,
}
use algod_loadb_mesh.App.Router.{RouterOptions, Snapshot, pick_upstream}
use algod_loadb_mesh.App.Router.Demand.{pick_on_demand}
use algod_loadb_mesh.Domain.Eligible.{
  in_sync, state_oldest, state_window_covers, window_covers, round_eligible, eligible,
}
use algod_loadb_mesh.Domain.Request.{window_state, RequestClass, heavy, fits, stat_key}
use algod_loadb_mesh.Domain.Select.{
  fallback, Selection, effective_tier, state_window_edge, weigh, score, scored, before, same_tier,
  indices, pool, draw_two, choose_index, pick, select,
}
use algod_loadb_mesh.Domain.Select.Picked.{IsCandidate}
use algod_loadb_mesh.Domain.Select.Promise.{
  select_sound, select-best_tier, select-off_edge, select_local_first,
}
use algod_loadb_mesh.Domain.Upstream.{reachable, is_local, Upstream}
use algod_loadb_mesh.Tests.Fixtures.{
  nat_float, nat_float-IsOrdered, peer_node, history_node, local_node, fleet, no_weights, read,
}

abbrev pub chosen_local : Selection ℕ
chosen_local = record {
  chosen = record local_node { score = 18 };
  alternates = record history_node { score = 20 } ∷ record peer_node { score = 20 } ∷ [];
  tier = pos 0;
}

selects : Unit {0}
unfolding select pick choose_index same_tier pool indices draw_two before effective_tier
    state_window_edge scored score weigh sort_by insert_by lookup stat_key eligible round_eligible
    window_covers state_window_covers state_oldest heavy in_sync fits reachable eqb ltb_bytes
selects = tt

pub run : select fallback fleet read 5000 1 no_weights none ≡ some chosen_local
unfolding selects
run = refl

pub read-eligible : (u : Upstream ℕ) → Among u fleet → eligible u read 5000 1 ≡ true
unfolding selects
read-eligible u (inl e) = rw e
read-eligible u (inr (inl e)) = rw e
read-eligible u (inr (inr (inl e))) = rw e
read-eligible u (inr (inr (inr x))) = elim x [ ]

select_sound_example :
    IsCandidate read 5000 1 no_weights fleet (record local_node { score = 18 })
    × Perm (chosen_local.chosen ∷ chosen_local.alternates) (
        map {A = Upstream ℕ} {B = Upstream ℕ}
          (λ u. record u { score = score u read 5000 no_weights })
          (keep (λ u. eligible u read 5000 1) fleet))
select_sound_example =
    select_sound fallback fleet read 5000 1 no_weights none nat_float-IsOrdered tt chosen_local run

select-best_tier_example :
    effective_tier fallback (record local_node { score = 18 }) ≤ℤ effective_tier fallback peer_node
select-best_tier_example =
    select-best_tier fallback fleet read 5000 1 no_weights none nat_float-IsOrdered tt chosen_local
      run peer_node (inl refl) (read-eligible peer_node (inl refl))

ranked : (v : Upstream ℕ) → Among v fleet → is_local v.kind ≡ false → pos 0 ≤ℤ v.tier
ranked v (inl e) h = rw e (omega arith)
ranked v (inr (inl e)) h = rw e (omega arith)
ranked v (inr (inr (inl e))) h = rw e (omega arith)
ranked v (inr (inr (inr x))) h = elim x [ ]

select_local_first_example : is_local chosen_local.chosen.kind ≡ true
select_local_first_example =
    select_local_first fallback fleet read 5000 1 no_weights none nat_float-IsOrdered tt
      chosen_local run refl ranked local_node (inr (inr (inl refl)))
      (read-eligible local_node (inr (inr (inl refl)))) refl

-- A read at the oldest round of the state window, which a node of tier 0 holds at its edge.
abbrev edge_read : RequestClass
edge_read = record read { round = some 4996; round_window = window_state }

abbrev near_node : Upstream ℕ
near_node = record peer_node { id = codes "near"; tier = pos 0 }

abbrev mixed : List (Upstream ℕ)
mixed = near_node ∷ history_node ∷ []

abbrev chosen_near : Selection ℕ
chosen_near = record {
  chosen = record near_node { score = 20 };
  alternates = record history_node { score = 20 } ∷ [];
  tier = pos 0;
}

run_edge : select fallback mixed edge_read 5000 1 no_weights none ≡ some chosen_near
unfolding selects
run_edge = refl

edge_facts :
    (eligible history_node edge_read 5000 1 ≡ true)
    × (eligible near_node edge_read 5000 1 ≡ true)
    × (state_window_edge chosen_near.chosen edge_read ≡ true)
    × (eqb_ℤ (effective_tier fallback near_node) (effective_tier fallback chosen_near.chosen)
        ≡ true)
unfolding selects
edge_facts = (refl, refl, refl, refl)

select-off_edge_example : state_window_edge near_node edge_read ≡ true
select-off_edge_example =
    select-off_edge fallback mixed edge_read 5000 1 no_weights none nat_float-IsOrdered tt
      chosen_near run_edge history_node near_node (inr (inl refl)) edge_facts.0 refl (inl refl)
      edge_facts.1 edge_facts.3 edge_facts.2

abbrev pub router_options : RouterOptions ℕ
router_options = record {
  mode = fallback;
  sync_tolerance = 1;
  weights = no_weights;
  balancer = false;
}

abbrev here_now : Snapshot ℕ
here_now = record { cands = fleet; best = 5000 }

-- What a check would find: only the peer.
abbrev there_later : Snapshot ℕ
there_later = record { cands = peer_node ∷ []; best = 5000 }

pick_on_demand_example :
    (x : Selection ℕ) × (select fallback fleet read 5000 1 no_weights none ≡ some x)
    × (pick_upstream router_options read here_now (some there_later) none none ≡ (some x, here_now))
pick_on_demand_example =
    pick_on_demand router_options read here_now none none (some there_later) peer_node (inl refl)
      (read-eligible peer_node (inl refl))

-- A simulation of past rounds in a fleet without the history.
abbrev strict : RequestClass
strict = record read { time_travel = true }

abbrev only_peer : Selection ℕ
only_peer = record { chosen = record peer_node { score = 20 }; alternates = []; tier = pos 1 }
