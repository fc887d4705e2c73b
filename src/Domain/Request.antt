-- ===== src/Domain/Request.antt =====
-- The class of a request: internal/domain/classify.go, all but `Classify`. `txn_groups` of a
-- simulate body is the number of its groups, which is all that the source decodes of them.
pub mod Rounds
use algod_loadb_mesh.Base.{
  ℕ, max, Bool, true, false, not, ◌&&◌, ◌||◌, Option, none, some, List, [], ◌∷◌, ltb, leb, ◌==◌,
  if◌then◌else◌, is_some, Bytes, codes, eqb, length, ℤ, pos_part,
}
use algod_loadb_mesh.Domain.Capabilities.{SimulateLimits, Capabilities, simulate_limits}

pub data RoundWindow : Type 0 where
  window_block window_state window_delta : RoundWindow

abbrev pub is_block : RoundWindow → Bool
is_block window_block = true
is_block window_state = false
is_block window_delta = false

abbrev pub is_delta : RoundWindow → Bool
is_delta window_delta = true
is_delta window_block = false
is_delta window_state = false

pub record Reply : Type 0 where
  pub status : ℕ
  pub message : Bytes

abbrev pub no_reply : Reply
no_reply = record { status = 0; message = [] }

pub record SimulateNeeds : Type 0 where
  pub groups : ℕ
  pub rounds : ℕ
  pub extra_opcode_budget : ℕ
  pub fork : Bool
  pub developer_api : Bool
  pub rounds_span : Bool
  pub latest : Bool
  pub exec_trace : Bool
  pub unnamed_resources : Bool

pub record RequestClass : Type 0 where
  pub round : Option ℕ
  pub ahead : Reply
  pub needs_dev : Bool
  pub broadcast : Bool
  pub pending_id : Bytes
  pub wait_after : Option ℕ
  pub local_only : Bool
  pub agent : Bool
  pub idempotent : Bool
  pub time_travel : Bool
  pub round_window : RoundWindow
  pub history_any_round : Bool
  pub simulate : Bool
  pub sim_needs : Option SimulateNeeds
  pub round_high : ℕ
  pub simulate_limits : Bool
  pub versions : Bool
  pub deltas : Bool

-- Go's zero value of the class.
abbrev pub empty_class : RequestClass
empty_class = record {
  round = none;
  ahead = no_reply;
  needs_dev = false;
  broadcast = false;
  pending_id = [];
  wait_after = none;
  local_only = false;
  agent = false;
  idempotent = false;
  time_travel = false;
  round_window = window_block;
  history_any_round = false;
  simulate = false;
  sim_needs = none;
  round_high = 0;
  simulate_limits = false;
  versions = false;
  deltas = false;
}

unfoldable pub heavy : RequestClass → Bool
heavy c = c.simulate || c.deltas

abbrev within_limits : SimulateNeeds → SimulateLimits → Bool
within_limits n l =
    leb n.groups l.max_txn_groups
    && leb n.rounds l.max_rounds
    && leb n.extra_opcode_budget l.max_extra_opcode_budget

-- `SimulateNeeds.Fits`.
unfoldable pub fits : SimulateNeeds → Capabilities → Bool
fits n c =
    if n.fork && not (is_some c.simulate)
    then false
    else if n.developer_api && not c.developer_api
    then false
    else within_limits n (simulate_limits c)

pub record SimulateBody : Type 0 where
  pub txn_groups : ℕ
  pub round : ℕ
  pub rounds : List ℕ
  pub extra_opcode_budget : ℤ
  pub exec_trace_enable : Bool
  pub allow_unnamed_resources : Bool
  pub parallel_groups : Bool
  pub skip_validity_window : Bool
  pub rewrite_validity_window : Bool
  pub protocol : Bytes

abbrev protocol_future : Bytes
protocol_future = codes "future"

abbrev is_empty : Bytes → Bool
is_empty [] = true
is_empty (b ∷ bs) = false

-- The needs before the rounds are read.
unfoldable pub base_needs : SimulateBody → SimulateNeeds
base_needs b = record {
  groups = b.txn_groups;
  rounds = length b.rounds;
  extra_opcode_budget = pos_part b.extra_opcode_budget;
  fork =
      b.parallel_groups
      || b.skip_validity_window
      || b.rewrite_validity_window
      || not (is_empty b.protocol);
  developer_api = b.exec_trace_enable || eqb b.protocol protocol_future;
  rounds_span = false;
  latest = false;
  exec_trace = b.exec_trace_enable;
  unnamed_resources = b.allow_unnamed_resources;
}

-- The variables `lo`, `hi` and `n.Latest` of the loop over `rounds`.
pub record Span : Type 0 where
  pub lo : ℕ
  pub hi : ℕ
  pub latest : Bool

abbrev pub span_step : Span → ℕ → Span
span_step s r =
    if r == 0
    then record s { latest = true }
    else record s { lo = if (s.lo == 0) || ltb r s.lo then r else s.lo; hi = max s.hi r }

unfoldable pub span_of : Span → List ℕ → Span
span_of s [] = s
span_of s (r ∷ rs) = span_of (span_step s r) rs

abbrev pub empty_span : Span
empty_span = record { lo = 0; hi = 0; latest = false }

abbrev pub set_round : RequestClass → ℕ → RequestClass
set_round c r = record c { round = some r; round_window = window_state; history_any_round = true }

-- The second case of the `switch`, once the loop is done.
unfoldable pub apply_span : RequestClass → SimulateNeeds → Span → RequestClass
apply_span c n s =
    if ltb 0 s.hi
    then record (set_round c s.lo) {
      round_high = s.hi;
      sim_needs = some (record n { latest = s.latest; rounds_span = true });
    }
    else record c { sim_needs = some (record n { latest = s.latest }) }

-- `(*RequestClass).ApplySimulate`.
unfoldable pub apply_simulate : RequestClass → SimulateBody → RequestClass
apply_simulate c b =
    let n = base_needs b in
    if not (b.round == 0)
    then record (set_round c b.round) { sim_needs = some n }
    else apply_span c n (span_of empty_span b.rounds)

abbrev drop_rounds : RequestClass → RequestClass
drop_rounds c = record c {
  round = none;
  round_high = 0;
  round_window = window_block;
  history_any_round = false;
}

relaxed_needs : RequestClass → Option SimulateNeeds → List RequestClass
relaxed_needs c none = []
relaxed_needs c (some n) =
    if n.rounds_span
    then drop_rounds c ∷ record (drop_rounds c) { sim_needs = none } ∷ []
    else record c { sim_needs = none } ∷ []

-- `RequestClass.Relaxed`.
unfoldable pub relaxed : RequestClass → List RequestClass
unfolding relaxed_needs
relaxed c = relaxed_needs c c.sim_needs

-- `RequestClass.StatKey`.
unfoldable pub stat_key : RequestClass → Bytes
stat_key c =
    if c.time_travel
    then codes "timetravel"
    else if c.simulate
    then codes "simulate"
    else if is_some c.round
    then codes "round"
    else if c.broadcast
    then codes "broadcast"
    else if not (is_empty c.pending_id)
    then codes "pending"
    else if is_some c.wait_after
    then codes "wait"
    else if c.needs_dev
    then codes "teal"
    else codes "default"
