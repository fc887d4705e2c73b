-- ===== src/Domain/Classify/Routes.antt =====
-- What holds of every class that `Classify` makes.
use algod_loadb_mesh.Base.{
  ℕ, ◌≡◌, refl, ◌≢◌, ◌⊎◌, inl, inr, Bool, true, false, not, ◌&&◌, ◌||◌, Option, none, some, List,
  arith, if◌then◌else◌, Bool-cases, is_some, Bytes, codes, eqb, eq_of_eqb, to_upper, trim_prefix,
  trim_suffix, split, parse_uint,
}
use algod_loadb_mesh.Domain.Classify.{
  is, seg, last_seg, is_get, block_class, with_block_round, after_round, classify_block,
  state_class, classify_state, classify_status, classify_transactions, classify_v2, is_own_path,
  classify_segs, start_class, classify,
}
use algod_loadb_mesh.Domain.Query.{query_values, query_get, round_param}
use algod_loadb_mesh.Domain.Request.{window_delta, is_delta, Reply, RequestClass, empty_class}

-- The combinations of fields that the router relies on.
pub record IsRoutable (c : RequestClass) : Type 0 where
  -- The router reads the round of a class with a reply for rounds ahead without a check.
  pub ahead_round : c.ahead.status ≢ 0 → is_some c.round ≡ true
  -- A round from the history is never sent to a node without it.
  pub travels : c.time_travel ≡ true → (is_some c.round ≡ true) ⊎ (c.versions ≡ true)
  pub versions_travel : c.versions ≡ true → c.time_travel ≡ true
  -- A request with a round of its own may go to any node.
  pub roams : is_some c.round ≡ true → c.local_only ≡ false
  pub agent_local : c.agent ≡ true → c.local_only ≡ true
  pub broadcast_once :
      c.broadcast ≡ true → (c.idempotent ≡ false) × (c.round ≡ none) × (c.local_only ≡ false)
  pub simulates :
      c.simulate ≡ true → (c.idempotent ≡ true) × (c.round ≡ none) × (c.local_only ≡ false)
  pub unread : (c.sim_needs ≡ none) × (c.round_high ≡ 0)
  pub delta_round : c.deltas ≡ true → (is_some c.round ≡ true) × (c.round_window ≡ window_delta)
  pub waits : is_some c.wait_after ≡ true → c.round ≡ none

module _ (i : Bool) where
  abbrev c₀ : RequestClass
  c₀ = record empty_class { idempotent = i }

  plain-IsRoutable : (header txn : Bool) → IsRoutable (after_round c₀ header txn)
  plain-IsRoutable header txn = ground arith

  round-IsRoutable :
      (r : ℕ) (ahead : Reply) (is_delta get header : Bool)
      → IsRoutable (after_round (block_class c₀ r ahead is_delta get) header false)
  round-IsRoutable r ahead is_delta get header = ground arith

  -- "txn" is no round, so that the round which that case drops was never set.
  parse_uint-txn : (s : Bytes) → eqb s (codes "txn") ≡ true → parse_uint s ≡ none
  unfolding parse_uint
  parse_uint-txn s h = rw (eq_of_eqb s (codes "txn") h)

  block-IsRoutable :
      (method : Bytes) (segs : List Bytes) (q : List (Bytes × Bytes)) (s : Bytes) (o : Option ℕ)
      (delta header : Bool)
      → parse_uint s ≡ o
      → IsRoutable
          (after_round (with_block_round c₀ method segs o) header (delta && is s (codes "txn")))
  unfolding with_block_round
  block-IsRoutable method segs q s none delta header e = plain-IsRoutable header _
  block-IsRoutable method segs q s (some r) delta header e =
      elim (Bool-cases (delta && is s (codes "txn"))) [
        | inl t ↦ absurd (let n = parse_uint-txn s (ground arith) in ground arith)
        | inr t ↦ rw t (round-IsRoutable r _ _ (is_get method) header)
      ]

  state-IsRoutable :
      (ledger supply boxes : Bool) (r : Option ℕ)
      → IsRoutable (state_class c₀ ledger supply boxes r)
  state-IsRoutable ledger supply boxes r = ground arith

  local-IsRoutable : (agent : Bool) → IsRoutable (record c₀ { agent = agent; local_only = true })
  local-IsRoutable agent = ground arith

  status-IsRoutable : (segs : List Bytes) → IsRoutable (classify_status c₀ segs)
  unfolding classify_status
  status-IsRoutable segs = ground arith

  transactions-IsRoutable :
      (method : Bytes) (segs : List Bytes) → IsRoutable (classify_transactions c₀ method segs)
  unfolding classify_transactions
  transactions-IsRoutable method segs = ground arith

  versions-IsRoutable : IsRoutable (record c₀ { time_travel = true; versions = true })
  versions-IsRoutable = ground arith

  teal-IsRoutable : IsRoutable (record c₀ { needs_dev = true; idempotent = true })
  teal-IsRoutable = ground arith

  start-IsRoutable : IsRoutable c₀
  start-IsRoutable = ground arith

  -- A conditional between classes that the router can rely on is one.
  if-IsRoutable :
      (b : Bool) (c d : RequestClass)
      → IsRoutable c
      → IsRoutable d
      → IsRoutable (if b then c else d)
  if-IsRoutable true c d h k = h
  if-IsRoutable false c d h k = k

  v2-IsRoutable :
      (method : Bytes) (segs : List Bytes) (q : List (Bytes × Bytes))
      → IsRoutable (classify_v2 c₀ method segs q)
  unfolding classify_v2 classify_block classify_state
  v2-IsRoutable method segs q =
      let s = seg segs 1 in
      if-IsRoutable (is (last_seg segs) (codes "versions")) _ _ versions-IsRoutable (
        if-IsRoutable (is s (codes "blocks") || is s (codes "deltas") || is s (codes "stateproofs"))
          _ _
          (block-IsRoutable method segs q (seg segs 2) (parse_uint (seg segs 2))
            (is s (codes "deltas"))
            (is s (codes "blocks") && is (query_get (codes "header-only") q) (codes "true")) refl)
          (if-IsRoutable
            (is s (codes "accounts")
              || is s (codes "assets")
              || is s (codes "applications")
              || is s (codes "ledger"))
            _ _
            (state-IsRoutable (is s (codes "ledger")) (is (seg segs 2) (codes "supply"))
              (is s (codes "applications") && is (seg segs 3) (codes "boxes")) (round_param q))
            (if-IsRoutable (is s (codes "status")) _ _ (status-IsRoutable segs) (
              if-IsRoutable (is s (codes "teal")) _ _ teal-IsRoutable (
                if-IsRoutable (is s (codes "transactions")) _ _
                  (transactions-IsRoutable method segs)
                  (if-IsRoutable
                    (is s (codes "participation")
                      || is s (codes "shutdown")
                      || is s (codes "catchup")
                      || is s (codes "devmode"))
                    _ _ (local-IsRoutable false) start-IsRoutable))))))

-- Every class that `Classify` makes is one that the router can rely on: a reply for rounds ahead
-- comes with a round, so that the router's read of it never meets nil; a request that needs the
-- history names a round or is a history page; and no request with a round is held to the local node.
pub classify-IsRoutable : (method path raw : Bytes) → IsRoutable (classify method path raw)
unfolding classify classify_segs
classify-IsRoutable method path raw =
    let m = to_upper method in
    let i = (start_class m).idempotent in
    let p = trim_suffix b'/' path in
    let segs = split b'/' (trim_prefix b'/' p) in
    if-IsRoutable i (is (seg segs 0) (codes "mesh")) _ _ (local-IsRoutable i true) (
      if-IsRoutable i (is_own_path p) _ _ (local-IsRoutable i false) (
        if-IsRoutable i (not (is (seg segs 0) (codes "v2"))) _ _ (local-IsRoutable i false)
          (v2-IsRoutable i m segs (query_values raw))))
