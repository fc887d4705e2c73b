-- ===== src/Domain/Effort.antt =====
-- The work that a node reports for a request: internal/domain/effort.go.
pub mod Billed
use algod_loadb_mesh.Base.{
  ℕ, Bool, not, ◌||◌, Option, none, some, List, [], ◌∷◌, if◌then◌else◌, Bytes, codes, eqb, split,
  cut, trim_space, parse_uint, any, all, Float, ge, add_word,
}
use algod_loadb_mesh.App.Stats.Rate.{rate}

pub record Effort : Type 0 where
  pub opcodes : ℕ
  pub lookups : ℕ
  pub history : ℕ
  pub scanned : ℕ
  pub trace_bytes : ℕ
  pub eval_us : ℕ

abbrev pub no_effort : Effort
no_effort = record {
  opcodes = 0;
  lookups = 0;
  history = 0;
  scanned = 0;
  trace_bytes = 0;
  eval_us = 0;
}

-- The fields of an effort, for the pointers that `field` returns.
pub data EffortField : Type 0 where
  opcodes_field lookups_field history_field scanned_field trace_bytes_field eval_us_field :
      EffortField

-- `(*Effort).field`; nil is none.
unfoldable pub field : Bytes → Option EffortField
field key =
    if eqb key (codes "opcodes")
    then some opcodes_field
    else if eqb key (codes "lookups")
    then some lookups_field
    else if eqb key (codes "history")
    then some history_field
    else if eqb key (codes "scanned")
    then some scanned_field
    else if eqb key (codes "trace-bytes")
    then some trace_bytes_field
    else if eqb key (codes "eval-us")
    then some eval_us_field
    else none

abbrev set_field : EffortField → ℕ → Effort → Effort
set_field opcodes_field n e = record e { opcodes = n }
set_field lookups_field n e = record e { lookups = n }
set_field history_field n e = record e { history = n }
set_field scanned_field n e = record e { scanned = n }
set_field trace_bytes_field n e = record e { trace_bytes = n }
set_field eval_us_field n e = record e { eval_us = n }

-- The variables of the loop: `e`, and the keys of `seen`.
pub record Parsed : Type 0 where
  pub effort : Effort
  pub seen : List Bytes

abbrev pub has_seen : List Bytes → Bytes → Bool
has_seen seen key = any (λ k. eqb k key) seen

-- The key and the value of a member, without its parameters, and whether it has a value.
unfoldable pub member_parts : Bytes → Bytes × Bytes × Bool
member_parts member = cut b'=' (trim_space (cut b';' member).0)

abbrev pub store : Parsed → Bytes → EffortField → Option ℕ → Option Parsed
store p key fl none = none
store p key fl (some n) = some (record { effort = set_field fl n p.effort; seen = key ∷ p.seen })

abbrev pub take_member : Parsed → Bytes → Bytes → Bool → Option EffortField → Option Parsed
take_member p key val ok none = some p
take_member p key val ok (some fl) =
    if not ok || has_seen p.seen key then none else store p key fl (parse_uint val)

-- The body of the loop.
unfoldable pub parse_member : Parsed → Bytes → Option Parsed
parse_member p member =
    let (key, val, ok) = member_parts member in take_member p key val ok (field key)

abbrev and_then : Option Parsed → (Parsed → Option Parsed) → Option Parsed
and_then none k = none
and_then (some p) k = k p

unfoldable pub parse_members : Parsed → List Bytes → Option Parsed
parse_members p [] = some p
parse_members p (x ∷ xs) = and_then (parse_member p x) (λ q. parse_members q xs)

abbrev pub billed_effort_keys : List Bytes
billed_effort_keys =
    codes "opcodes" ∷ codes "lookups" ∷ codes "history" ∷ codes "scanned" ∷ codes "trace-bytes" ∷ []

abbrev pub all_billed : Option Parsed → Option Effort
all_billed none = none
all_billed (some p) = if all (has_seen p.seen) billed_effort_keys then some p.effort else none

unfoldable pub parse_effort : Bytes → Option Effort
parse_effort v =
    all_billed (parse_members (record { effort = no_effort; seen = [] }) (split b',' v))

-- `Add`.
unfoldable pub add_effort : Effort → Effort → Effort
add_effort e o = record {
  opcodes = add_word e.opcodes o.opcodes;
  lookups = add_word e.lookups o.lookups;
  history = add_word e.history o.history;
  scanned = add_word e.scanned o.scanned;
  trace_bytes = add_word e.trace_bytes o.trace_bytes;
  eval_us = add_word e.eval_us o.eval_us;
}

pub record EffortRates (R : Type 0) : Type 0 where
  pub opcodes_per_credit : R
  pub lookups_per_credit : R
  pub history_per_credit : R
  pub scanned_per_credit : R
  pub trace_kb_per_credit : R

module _ {R : Type 0} ⦃f : Float R⦄ where
  abbrev pub default_effort_rates : EffortRates R
  default_effort_rates = record {
    opcodes_per_credit = f.of_nat 330000;
    lookups_per_credit = f.of_nat 10000;
    history_per_credit = f.of_nat 1000;
    scanned_per_credit = f.of_nat 10000;
    trace_kb_per_credit = f.of_nat 1024;
  }

  abbrev per : ℕ → R → R
  per n rate = if ge f (f.of_nat 0) rate then f.of_nat 0 else f.div (f.of_nat n) rate

  -- `Credits`.
  unfoldable pub credits : EffortRates R → Effort → R
  credits r e =
      f.add
        (f.add
          (f.add (f.add (per e.opcodes r.opcodes_per_credit) (per e.lookups r.lookups_per_credit))
            (per e.history r.history_per_credit))
          (per e.scanned r.scanned_per_credit))
        (per e.trace_bytes (f.mul r.trace_kb_per_credit (f.of_nat 1024)))
