-- ===== src/App/Options.antt =====
-- The options of the directory: `ExternalUpstream`, `PeerOverride` and `DirectoryOptions` of
-- internal/app/directory.go. Durations are taken as at least 0. Maps are association lists.
use algod_loadb_mesh.Base.{
  ℕ, ◌*◌, Bool, Option, List, ◌==◌, if◌then◌else◌, second, Bytes, eqb, any, ℤ, pos,
}
use algod_loadb_mesh.Domain.Capabilities.{CapabilityOverrides}
use algod_loadb_mesh.Domain.Judge.{SyncJudge, new_sync_judge}
use algod_loadb_mesh.Domain.Path.{PathPolicy}

pub record ExternalUpstream : Type 0 where
  pub name : Bytes
  pub url : Bytes
  pub token : Bytes
  pub tier : ℤ
  pub capabilities : Option CapabilityOverrides
  pub health_check : ℕ

-- `PeerOverride`: a tier, if it is given.
pub record PeerOverride : Type 0 where
  pub tier : Option ℤ

pub record DirectoryOptions : Type 0 where
  pub local_id : Bytes
  pub local_tier : ℤ
  pub no_local : Bool
  pub suspect_after : ℕ
  pub down_after : ℕ
  pub probe_interval : ℕ
  pub keep_alive : ℕ
  pub path_probe_interval : ℕ
  pub path_timeout : ℕ
  pub sync_tolerance : ℕ
  pub lag_grace : ℕ
  pub return_hysteresis : ℕ
  pub peer_overrides : List (Bytes × PeerOverride)
  pub externals : List ExternalUpstream
  pub exclude : List Bytes

-- `if v == 0 { v = d }`.
abbrev pub or_default : ℕ → ℕ → ℕ
or_default d v = if v == 0 then d else v

-- `defaults`.
unfoldable pub with_defaults : DirectoryOptions → DirectoryOptions
with_defaults o = record o {
  suspect_after = or_default (15 * second) o.suspect_after;
  down_after = or_default (30 * second) o.down_after;
  probe_interval = or_default (10 * second) o.probe_interval;
  keep_alive = or_default (5 * second) o.keep_alive;
  path_probe_interval = or_default (30 * second) o.path_probe_interval;
  path_timeout = or_default (2 * second) o.path_timeout;
  return_hysteresis = or_default 3 o.return_hysteresis;
  lag_grace = or_default 1500000000 o.lag_grace;
}

-- `d.judge()`, a judge for a new upstream.
abbrev pub judge_for : DirectoryOptions → SyncJudge
judge_for o = new_sync_judge o.sync_tolerance (pos o.lag_grace) o.return_hysteresis

-- `d.excluded[id]`.
abbrev pub is_excluded : DirectoryOptions → Bytes → Bool
is_excluded o id = any (eqb id) o.exclude

-- `d.policy`.
abbrev pub policy_of : DirectoryOptions → PathPolicy
policy_of o = record { probe_interval = o.path_probe_interval }
