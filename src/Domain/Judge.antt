-- ===== src/Domain/Judge.antt =====
-- Synced or lagging over time: internal/domain/health.go. `required` is an int, taken not negative;
-- a method on a pointer returns the new value beside its result.
pub mod Trust
use algod_loadb_mesh.Base.{
  ℕ, ◌+◌, Bool, true, false, not, ◌&&◌, ◌||◌, ltb, leb, ◌==◌, if◌then◌else◌, Time, Duration,
  is_zero, sub_time, leb_ℤ, add_word,
}
use algod_loadb_mesh.Domain.Upstream.{Health, starting, offline, online, lagging, synced}

pub record ReturnHysteresis : Type 0 where
  pub required : ℕ
  pub streak : ℕ
  pub trusted : Bool

abbrev pub new_return_hysteresis : ℕ → ReturnHysteresis
new_return_hysteresis required = record { required = required; streak = 0; trusted = true }

-- `Observe` on a synced judgement.
abbrev observe_synced : ReturnHysteresis → ReturnHysteresis × Health
observe_synced h =
    if h.trusted
    then (h, synced)
    else if leb h.required (h.streak + 1)
    then (record h { streak = h.streak + 1; trusted = true }, synced)
    else (record h { streak = h.streak + 1 }, lagging)

abbrev pub distrust : ReturnHysteresis → ReturnHysteresis
distrust h = record h { streak = 0; trusted = false }

-- `(*ReturnHysteresis).Observe`.
unfoldable pub observe : ReturnHysteresis → Health → ReturnHysteresis × Health
observe h synced = observe_synced h
observe h lagging = (distrust h, lagging)
observe h online = (distrust h, online)
observe h offline = (distrust h, offline)
observe h starting = (distrust h, starting)

unfoldable pub current : ReturnHysteresis → Health
current h = if h.trusted then synced else lagging

pub record SyncJudge : Type 0 where
  pub tolerance : ℕ
  pub grace : Duration
  pub hyst : ReturnHysteresis
  pub behind : Time
  pub last_round : ℕ
  pub seen : Bool

abbrev pub new_sync_judge : ℕ → Duration → ℕ → SyncJudge
new_sync_judge tolerance grace rounds = record {
  tolerance = tolerance;
  grace = grace;
  hyst = new_return_hysteresis rounds;
  behind = 0;
  last_round = 0;
  seen = false;
}

-- The judge with the hysteresis that an observation leaves, and the health to publish.
abbrev feed : SyncJudge → Health → SyncJudge × Health
feed j judged = let (h, out) = observe j.hyst judged in (record j { hyst = h }, out)

abbrev is_behind : SyncJudge → ℕ → ℕ → Bool
is_behind j round best = ltb (add_word round j.tolerance) best

-- `if j.behind.IsZero() { j.behind = now }`, or the reset of `behind`.
abbrev mark : SyncJudge → Time → ℕ → ℕ → SyncJudge
mark j now round best =
    if is_behind j round best
    then record j { behind = if is_zero j.behind then now else j.behind }
    else record j { behind = 0 }

-- `lagging`, once `behind` is marked.
abbrev is_lagging : SyncJudge → Time → ℕ → ℕ → Bool
is_lagging j now round best =
    is_behind j round best
    && (ltb (add_word (add_word round j.tolerance) 1) best || leb_ℤ j.grace (sub_time now j.behind))

-- The part of `Judge` for a reachable upstream, after `behind` is marked.
unfoldable pub judge_reachable : SyncJudge → Time → ℕ → ℕ → SyncJudge × Health
judge_reachable j now round best =
    if is_lagging j now round best
    then feed j lagging
    else if not j.seen || not (round == j.last_round)
    then feed (record j { seen = true; last_round = round }) synced
    else (j, current j.hyst)

-- `(*SyncJudge).Judge`.
unfoldable pub judge : SyncJudge → Time → Bool → ℕ → ℕ → SyncJudge × Health
judge j now is_reachable round best =
    if not is_reachable
    then (if not j.seen
        then (record j { behind = 0 }, offline)
        else feed (record j { behind = 0 }) offline)
    else judge_reachable (mark j now round best) now round best
