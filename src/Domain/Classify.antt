-- ===== src/Domain/Classify.antt =====
-- The routes: `Classify` of internal/domain/classify.go, one function for each case of its switch.
pub mod Routes
use algod_loadb_mesh.Base.{
  ℕ, ◌-◌, Bool, true, false, not, ◌&&◌, ◌||◌, Option, none, some, List, [], ◌==◌, if◌then◌else◌,
  is_some, Bytes, codes, eqb, to_upper, trim_prefix, trim_suffix, split, join, parse_uint, length,
  get_or, drop,
}
use algod_loadb_mesh.Domain.Query.{query_values, query_get, round_param}
use algod_loadb_mesh.Domain.Request.{
  window_state, window_delta, is_delta, Reply, no_reply, RequestClass, empty_class,
}

abbrev pub is : Bytes → Bytes → Bool
is s t = eqb s t

-- The closure `seg`.
abbrev pub seg : List Bytes → ℕ → Bytes
seg segs i = get_or segs i []

abbrev pub last_seg : List Bytes → Bytes
last_seg segs = seg segs (length segs - 1)

abbrev pub is_get : Bytes → Bool
is_get method = is method (codes "GET")

abbrev ledger_failed : Bytes
ledger_failed = codes "failed to retrieve information from the ledger"

-- `Ahead` for a request that names a round, `sub` what follows the round in the path.
unfoldable pub ahead_of : Bytes → List Bytes → Bytes → Reply
ahead_of method segs sub =
    let blocks = is (seg segs 1) (codes "blocks") in
    let deltas = is (seg segs 1) (codes "deltas") in
    let proofs = is (seg segs 1) (codes "stateproofs") in
    if not (is_get method)
    then no_reply
    else if (proofs && is sub []) || (blocks && is sub (codes "lightheader/proof"))
    then record { status = 500; message = codes "given round is greater than the latest round" }
    else if blocks
        && (length segs == 6)
        && is (seg segs 3) (codes "transactions")
        && is (seg segs 5) (codes "proof")
    then record { status = 500; message = ledger_failed }
    else if (blocks
          && (is sub []
              || is sub (codes "hash")
              || is sub (codes "txids")
              || is sub (codes "logs")))
        || (deltas && is sub [])
    then record { status = 404; message = ledger_failed }
    else no_reply

-- The class with the round, and its window if it is that of a state delta.
abbrev pub block_class : RequestClass → ℕ → Reply → Bool → Bool → RequestClass
block_class c r ahead is_delta get =
    if is_delta
    then record c { round = some r; ahead = ahead; round_window = window_delta; deltas = get }
    else record c { round = some r; ahead = ahead }

unfoldable pub with_block_round : RequestClass → Bytes → List Bytes → Option ℕ → RequestClass
with_block_round c method segs none = c
with_block_round c method segs (some r) =
    let sub = join b'/' (drop 3 segs) in
    block_class c r (ahead_of method segs sub) (is (seg segs 1) (codes "deltas") && is sub [])
      (is_get method)

-- The two tests that follow: a header of a block, and the deltas of a transaction.
abbrev pub after_round : RequestClass → Bool → Bool → RequestClass
after_round c header txn =
    let c' = if header then record c { history_any_round = true } else c in
    if txn then record c' { round = none } else c'

-- `case "blocks", "deltas", "stateproofs"`.
unfoldable pub classify_block :
    RequestClass → Bytes → List Bytes → List (Bytes × Bytes) → RequestClass
classify_block c method segs q =
    after_round (with_block_round c method segs (parse_uint (seg segs 2)))
      (is (seg segs 1) (codes "blocks") && is (query_get (codes "header-only") q) (codes "true"))
      (is (seg segs 1) (codes "deltas") && is (seg segs 2) (codes "txn"))

-- A round from the query, within the account-state window of a plain node.
abbrev at_round : RequestClass → Bool → Option ℕ → RequestClass
at_round c history none = c
at_round c history (some r) = record c {
  round = some r;
  round_window = window_state;
  history_any_round = true;
  time_travel = history;
}

abbrev pub state_class : RequestClass → Bool → Bool → Bool → Option ℕ → RequestClass
state_class c ledger supply boxes r =
    let c' = at_round c (not boxes) r in
    if ledger && not supply
    then record c { local_only = true }
    else if ledger && not (is_some r)
    then record c' { local_only = true }
    else c'

-- `case "accounts", "assets", "applications", "ledger"`.
unfoldable pub classify_state : RequestClass → List Bytes → List (Bytes × Bytes) → RequestClass
classify_state c segs q =
    state_class c (is (seg segs 1) (codes "ledger")) (is (seg segs 2) (codes "supply"))
      (is (seg segs 1) (codes "applications") && is (seg segs 3) (codes "boxes")) (round_param q)

-- `case "status"`.
unfoldable pub classify_status : RequestClass → List Bytes → RequestClass
classify_status c segs =
    if is (seg segs 2) (codes "wait-for-block-after")
    then record c { wait_after = parse_uint (seg segs 3) }
    else c

-- `case "transactions"`.
unfoldable pub classify_transactions : RequestClass → Bytes → List Bytes → RequestClass
classify_transactions c method segs =
    if is (seg segs 2) [] && is method (codes "POST")
    then record c { broadcast = true; idempotent = false }
    else if is (seg segs 2) (codes "pending") && not (is (seg segs 3) [])
    then record c { pending_id = seg segs 3 }
    else if is (seg segs 2) (codes "pending")
    then record c { local_only = true }
    else if is (seg segs 2) (codes "simulate") && is (seg segs 3) (codes "limits")
    then record c { simulate_limits = is_get method }
    else if is (seg segs 2) (codes "simulate")
    then record c { idempotent = true; simulate = true }
    else c

-- The switch on the second segment, for a path below /v2.
unfoldable pub classify_v2 : RequestClass → Bytes → List Bytes → List (Bytes × Bytes) → RequestClass
classify_v2 c method segs q =
    let s = seg segs 1 in
    if is (last_seg segs) (codes "versions")
    then record c { time_travel = true; versions = true }
    else if is s (codes "blocks") || is s (codes "deltas") || is s (codes "stateproofs")
    then classify_block c method segs q
    else if is s (codes "accounts")
        || is s (codes "assets")
        || is s (codes "applications")
        || is s (codes "ledger")
    then classify_state c segs q
    else if is s (codes "status")
    then classify_status c segs
    else if is s (codes "teal")
    then record c { needs_dev = true; idempotent = true }
    else if is s (codes "transactions")
    then classify_transactions c method segs
    else if is s (codes "participation")
        || is s (codes "shutdown")
        || is s (codes "catchup")
        || is s (codes "devmode")
    then record c { local_only = true }
    else c

-- The paths that a node answers for itself alone.
abbrev pub is_own_path : Bytes → Bool
is_own_path p =
    is p (codes "/health")
    || is p (codes "/ready")
    || is p (codes "/metrics")
    || is p (codes "/swagger.json")
    || is p (codes "/versions")
    || is p (codes "/genesis")

unfoldable pub classify_segs :
    RequestClass → Bytes → Bytes → List Bytes → List (Bytes × Bytes) → RequestClass
classify_segs c method p segs q =
    if is (seg segs 0) (codes "mesh")
    then record c { agent = true; local_only = true }
    else if is_own_path p
    then record c { local_only = true }
    else if not (is (seg segs 0) (codes "v2"))
    then record c { local_only = true }
    else classify_v2 c method segs q

abbrev pub start_class : Bytes → RequestClass
start_class method = record empty_class {
  idempotent = is method (codes "GET") || is method (codes "HEAD");
}

-- `Classify(method, path, rawQuery)`.
unfoldable pub classify : Bytes → Bytes → Bytes → RequestClass
classify method path raw =
    let m = to_upper method in
    let p = trim_suffix b'/' path in
    classify_segs (start_class m) m p (split b'/' (trim_prefix b'/' p)) (query_values raw)
