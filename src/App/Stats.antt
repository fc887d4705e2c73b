-- ===== src/App/Stats.antt =====
-- What the router has seen of each upstream: internal/app/stats.go, with `Outcome` of
-- internal/ports/ports.go. The lock of the book is held for the whole of each operation, which here
-- takes the book and the clock's time and returns the new book. `Window` is taken to be at least 1,
-- without which `Record` would panic, and durations not negative.
pub mod Ring
pub mod Rate
pub mod Breaker
use algod_loadb_mesh.Base.{
  ℕ, suc, ◌+◌, ◌-◌, ◌*◌, ◌%◌, Bool, true, false, ◌||◌, Option, none, some, List, [], ◌∷◌, ltb, leb,
  ◌==◌, if◌then◌else◌, is_some, Time, second, Bytes, length, set, take, replicate, lookup, put,
  Float,
}
use algod_loadb_mesh.Domain.Eligible.{empty_stats}
use algod_loadb_mesh.Domain.Select.{latency}
use algod_loadb_mesh.Domain.Upstream.{Stats}

pub record Outcome : Type 0 where
  pub status : ℕ
  pub err : Option Bytes
  pub headers_sent : Bool
  pub duration : ℕ
  pub retry_after : ℕ

abbrev pub has_failed : Outcome → Bool
has_failed o = is_some o.err || leb 500 o.status || (o.status == 429)

pub record BreakerOptions (R : Type 0) : Type 0 where
  pub threshold : ℕ
  pub open_for : ℕ
  pub window : ℕ
  pub alpha : R

pub record UpstreamStats (R : Type 0) : Type 0 where
  pub latency : List (Bytes × R)
  pub window : List Bool
  pub window_pos : ℕ
  pub window_full : Bool
  pub inflight : ℕ
  pub failures : ℕ
  pub probing : Bool
  pub open_until : Time
  pub throttled_until : Time
  pub busy_until : Time

pub record StatsBook (R : Type 0) : Type 0 where
  pub opts : BreakerOptions R
  pub m : List (Bytes × UpstreamStats R)

abbrev pub count_true : List Bool → ℕ
count_true [] = 0
count_true (true ∷ bs) = suc (count_true bs)
count_true (false ∷ bs) = count_true bs

module _ {R : Type 0} where
  abbrev pub fresh_stats : BreakerOptions R → UpstreamStats R
  fresh_stats opts = record {
    latency = [];
    window = replicate opts.window false;
    window_pos = 0;
    window_full = false;
    inflight = 0;
    failures = 0;
    probing = false;
    open_until = 0;
    throttled_until = 0;
    busy_until = 0;
  }

  abbrev or_fresh : Option (UpstreamStats R) → BreakerOptions R → UpstreamStats R
  or_fresh none opts = fresh_stats opts
  or_fresh (some s) opts = s

  -- `get`, and a write through the pointer that it returns.
  unfoldable pub get : StatsBook R → Bytes → UpstreamStats R
  get b id = or_fresh (lookup id b.m) b.opts

  abbrev pub write : StatsBook R → Bytes → UpstreamStats R → StatsBook R
  write b id s = record b { m = put id s b.m }

  -- `Begin`, and the function that it returns, which counts once.
  unfoldable begin : StatsBook R → Bytes → StatsBook R
  begin b id = let s = get b id in write b id (record s { inflight = s.inflight + 1 })

  unfoldable pub done : StatsBook R → Bytes → StatsBook R
  done b id = let s = get b id in write b id (record s { inflight = s.inflight - 1 })

  -- The window with one more outcome.
  abbrev pub slide : UpstreamStats R → Bool → UpstreamStats R
  slide s bad =
      let next = (s.window_pos + 1) % length s.window in
      record s {
        window = set s.window s.window_pos bad;
        window_pos = next;
        window_full = if next == 0 then true else s.window_full;
      }

  -- `Record` of a failure, after the window.
  abbrev fail : BreakerOptions R → UpstreamStats R → Outcome → Time → UpstreamStats R
  fail opts s out now =
      let opens = leb opts.threshold (s.failures + 1) || s.probing in
      record s {
        failures = s.failures + 1;
        open_until = if opens then now + opts.open_for else s.open_until;
        probing = if opens then true else s.probing;
        throttled_until = if out.status == 429 then now + opts.open_for else s.throttled_until;
      }

  -- `Busy`.
  unfoldable pub busy : StatsBook R → Bytes → ℕ → Time → StatsBook R
  busy b id d now =
      let s = get b id in
      if ltb s.busy_until (now + d)
      then write b id (record s { busy_until = now + d })
      else write b id s

  -- How many entries of the window count.
  abbrev pub window_size : UpstreamStats R → ℕ
  window_size s = if s.window_full then length s.window else s.window_pos

  unfoldable pub fails : UpstreamStats R → ℕ
  fails s = count_true (take (window_size s) s.window)

module _ {R : Type 0} ⦃f : Float R⦄ where
  abbrev default_breaker : BreakerOptions R
  default_breaker = record {
    threshold = 5;
    open_for = 10 * second;
    window = 50;
    alpha = f.div (f.of_nat 2) (f.of_nat 10);
  }

  unfoldable new_stats_book : BreakerOptions R → StatsBook R
  new_stats_book opts = record {
    opts = if opts.threshold == 0 then default_breaker else opts;
    m = [];
  }

  -- The moving average, or the first sample.
  abbrev smooth : BreakerOptions R → Option R → R → R
  smooth opts none ms = ms
  smooth opts (some prev) ms = f.add prev (f.mul opts.alpha (f.sub ms prev))

  -- `Record` of a success, after the window.
  abbrev succeed : BreakerOptions R → UpstreamStats R → Bytes → Outcome → UpstreamStats R
  succeed opts s key out =
      let ms = f.div (f.of_nat out.duration) (f.of_nat 1000000) in
      record s {
        failures = 0;
        probing = false;
        latency = put key (smooth opts (lookup key s.latency) ms) s.latency;
      }

  unfoldable pub record_one :
      BreakerOptions R → UpstreamStats R → Bytes → Outcome → Time → UpstreamStats R
  record_one opts s key out now =
      let s' = slide s (has_failed out) in
      if has_failed out then fail opts s' out now else succeed opts s' key out

  -- `(*StatsBook).Record`.
  unfoldable record_outcome : StatsBook R → Bytes → Bytes → Outcome → Time → StatsBook R
  record_outcome b id key out now = write b id (record_one b.opts (get b id) key out now)

  -- `Snapshot` of an upstream that the book knows.
  unfoldable pub observed : UpstreamStats R → Time → Stats R
  observed s now =
      let n = window_size s in
      record {
        latency_ms = s.latency;
        error_rate = if ltb 0 n then f.div (f.of_nat (fails s)) (f.of_nat n) else f.of_nat 0;
        inflight = s.inflight;
        breaker_open = ltb now s.open_until;
        throttled = ltb now s.throttled_until;
        busy = ltb now s.busy_until;
      }

  abbrev snapshot_of : Option (UpstreamStats R) → Time → Stats R
  snapshot_of none now = empty_stats
  snapshot_of (some s) now = observed s now

  unfoldable pub snapshot : StatsBook R → Bytes → Time → Stats R
  snapshot b id now = snapshot_of (lookup id b.m) now
