-- ===== src/Domain/Path.antt =====
-- Which address of a link carries the heartbeats: internal/domain/path.go, but for `NormalizeAddr`,
-- which rewrites addresses with the parser of the `net` package. Round trip times are durations of
-- at least 0. The comparison `float64(b) < float64(c) * 0.75` is on integers of nanoseconds, which
-- are exact as float64 below 2 ^ 53; here it is `4 * b < 3 * c`.
pub mod Best
pub mod Policy
use algod_loadb_mesh.Base.{
  ℕ, suc, ◌*◌, Bool, not, ◌&&◌, Option, none, some, List, [], ◌∷◌, ltb, ◌==◌, if◌then◌else◌, Time,
  sub_time, Bytes, get_elem?, pos, leb_ℤ,
}

pub record PathStat : Type 0 where
  pub addr : Bytes
  pub rtt : ℕ
  pub alive : Bool
  pub deaf : Bool

abbrev pub path_failures : ℕ
path_failures = 3

pub record PathPolicy : Type 0 where
  pub probe_interval : ℕ

pub data Reason : Type 0 where
  initial dead deaf faster keep_path none_alive : Reason

abbrev pub better : PathStat → PathStat → Bool
better a b = if ltb 0 a.rtt && ltb 0 b.rtt then ltb a.rtt b.rtt else ltb 0 a.rtt

-- `best` of the loop, with the path that it names; -1 is `none`.
abbrev pub prefer : Option (ℕ × PathStat) → ℕ → PathStat → Option (ℕ × PathStat)
prefer none i s = some (i, s)
prefer (some (j, t)) i s = if better s t then some (i, s) else some (j, t)

unfoldable pub best_path : Option (ℕ × PathStat) → ℕ → List PathStat → Option (ℕ × PathStat)
best_path best i [] = best
best_path best i (s ∷ ss) = best_path (if s.alive then prefer best i s else best) (suc i) ss

abbrev pub index_of : Option (ℕ × PathStat) → Option ℕ
index_of none = none
index_of (some (i, s)) = some i

-- `faster` by the margin, and the last switch is two probe intervals old.
abbrev pub is_faster : PathPolicy → Time → PathStat → PathStat → Time → Bool
is_faster p now c b since =
    ltb 0 c.rtt
    && ltb 0 b.rtt
    && ltb (4 * b.rtt) (3 * c.rtt)
    && leb_ℤ (pos (2 * p.probe_interval)) (sub_time now since)

abbrev pub start_path : Option (ℕ × PathStat) → Option ℕ × Reason
start_path none = (none, none_alive)
start_path (some (i, s)) = (some i, initial)

-- The current path `c`, at index `cur`, is alive.
abbrev pub keep_or_switch :
    PathPolicy → Time → ℕ → PathStat → Time → Option (ℕ × PathStat) → Option ℕ × Reason
keep_or_switch p now cur c since none = (some cur, keep_path)
keep_or_switch p now cur c since (some (i, b)) =
    if i == cur
    then (some cur, keep_path)
    else if is_faster p now c b since
    then (some i, faster)
    else (some cur, keep_path)

abbrev pub choose_from :
    PathPolicy → Time → ℕ → Option PathStat → Time → Option (ℕ × PathStat) → Option ℕ × Reason
choose_from p now cur none since best = start_path best
choose_from p now cur (some c) since best =
    if not c.alive
    then (index_of best, if c.deaf then deaf else dead)
    else keep_or_switch p now cur c since best

-- `PathPolicy.Choose`; `cur` is none for an index below 0.
unfoldable pub choose : PathPolicy → Time → List PathStat → Option ℕ → Time → Option ℕ × Reason
choose p now stats none since = start_path (best_path none 0 stats)
choose p now stats (some cur) since =
    choose_from p now cur (get_elem? stats cur) since (best_path none 0 stats)
