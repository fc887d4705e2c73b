-- ===== src/Tests/Counting.antt =====
-- Pins, statistics and buckets.
use algod_loadb_mesh.Base.{
  ℕ, ◌+◌, ◌*◌, ◌≡◌, refl, true, false, none, some, List, [], ◌∷◌, arith, ltb, leb, if◌then◌else◌,
  second, Bytes, codes, eqb, pos, lookup,
}
use algod_loadb_mesh.App.Account.{Account, LimiterOptions, admit}
use algod_loadb_mesh.App.Account.Admission.{admit-IsAdmission}
use algod_loadb_mesh.App.Account.Terms.{IsAdmission}
use algod_loadb_mesh.App.Stats.{BreakerOptions, UpstreamStats, fresh_stats, observed}
use algod_loadb_mesh.App.Stats.Breaker.{breaker_opens}
use algod_loadb_mesh.App.Stats.Rate.{last_n, Sample, record_all, rate, failed_of, error_rate_recent}
use algod_loadb_mesh.App.TxnPins.{TxnPins, new_txn_pins, rotate, remember, found, recall}
use algod_loadb_mesh.App.TxnPins.Expiry.{recall_expired}
use algod_loadb_mesh.App.TxnPins.Lifetime.{Use, recalls, run_uses, recall_held}
use algod_loadb_mesh.Domain.Effort.{default_effort_rates}
use algod_loadb_mesh.Domain.Plan.{
  PlanWindow, Bucket, SimulateCaps, limited, refill, full, default_cost_weights, base_cost,
}
use algod_loadb_mesh.Domain.Plan.Refill.{full_forgotten}
use algod_loadb_mesh.Tests.Fixtures.{nat_float, nat_float-IsOrdered, read}

abbrev pins : TxnPins
pins = new_txn_pins 10 0

abbrev tx : Bytes
tx = codes "TX"

tx_named : eqb tx [] ≡ false
unfolding eqb
tx_named = refl

-- A use of the pins in between.
abbrev uses : List Use
uses = recalls (codes "OTHER") 24 ∷ []

abbrev soon : List Use
soon = recalls (codes "OTHER") 12 ∷ []

recall_held_example :
    (recall (run_uses (remember pins tx (codes "n1") 5) soon) tx 14).1 ≡ some (codes "n1")
recall_held_example =
    recall_held tx (codes "n1") 5 pins soon 14 (omega arith) (omega arith) (omega arith) tx_named
      (omega arith, tt, omega arith) (omega arith)

recall_expired_example : (recall (run_uses (remember pins tx (codes "n1") 5) uses) tx 35).1 ≡ none
recall_expired_example =
    recall_expired tx 5 pins (codes "n1") uses 35 (omega arith) (omega arith) (omega arith) tx_named
      (omega arith, tt, omega arith) (omega arith)

-- A pin that is recalled after more than twice its `ttl`.
recalls_late :
    (recall (run_uses (remember (new_txn_pins 10 5) tx (codes "n1") 5) uses) tx 33).1
    ≡ some (codes "n1")
unfolding recall remember rotate found lookup eqb
recalls_late = refl

abbrev options : BreakerOptions ℕ
options = record { threshold = 2; open_for = 100; window = 3; alpha = 0 }

abbrev failure : ℕ → Sample
failure t = record {
  key = codes "default";
  out = record { status = 500; err = none; headers_sent = false; duration = 0; retry_after = 0 };
  at_time = t;
}

abbrev success : ℕ → Sample
success t = record (failure t) {
  out = record { status = 200; err = none; headers_sent = false; duration = 0; retry_after = 0 };
}

abbrev series : List Sample
series = failure 1 ∷ success 2 ∷ failure 3 ∷ failure 4 ∷ []

error_rate_recent_example :
    (observed (record_all options (fresh_stats options) series) 9).error_rate
    ≡ rate options (last_n 3 (failed_of options series))
error_rate_recent_example = error_rate_recent options series 9 (omega arith)

breaker_opens_example :
    (observed
      (record_all options (fresh_stats options) (failure 3 ∷ failure 4 ∷ []))
      9).breaker_open
    ≡ (if leb 2 2 then ltb 9 (4 + 100) else ltb 9 0)
breaker_opens_example =
    breaker_opens options (fresh_stats options) (failure 3) (failure 4 ∷ []) 9 (omega arith) refl
      refl (refl, (refl, tt))

abbrev opened : UpstreamStats ℕ
opened = record (fresh_stats options) { probing = true; failures = 2; open_until = 104 }

abbrev pub minute : PlanWindow ℕ
minute = record { capacity = 60; period = pos (60 * second) }

abbrev bucket : Bucket ℕ
bucket = record { level = 59; at_time = second }

limits : limited minute ≡ true
unfolding limited
limits = refl

is_full : full minute (refill minute bucket (4 * second)) ≡ true
unfolding full refill limited
is_full = refl

full_forgotten_example :
    nat_float.eq
      (refill minute bucket (4 * second)).level
      (refill minute (record { level = 0; at_time = 0 }) (9 * second)).level
    ≡ true
full_forgotten_example =
    full_forgotten nat_float-IsOrdered minute bucket (4 * second) (9 * second) limits is_full

abbrev pub limiter_options : LimiterOptions ℕ
limiter_options = record {
  weights = default_cost_weights;
  rates = default_effort_rates;
  simulate_per_second = 20;
}

abbrev pub open_plan : SimulateCaps
open_plan = record {
  max_groups = 0;
  max_rounds = 0;
  max_extra_opcode_budget = 0;
  deny_unnamed_resources = false;
  deny_exec_trace = false;
}

abbrev pub account : Account ℕ
account = record {
  id = codes "ip:10.0.0.9";
  plan = record { name = codes "free"; minute = minute; day = minute; simulate = open_plan };
  minute = bucket;
  day = bucket;
  flights = [];
}

admit-IsAdmission_example :
    IsAdmission account read
      (base_cost default_cost_weights read 5000)
      1
      (4 * second)
      (admit limiter_options account read 5000 1 (4 * second))
admit-IsAdmission_example = admit-IsAdmission limiter_options account read 5000 1 (4 * second)
