-- ===== src/App/RegistrySync.antt =====
-- The records of the registry and this node's own: internal/app/registrysync.go. What the registry and
-- its cache answer, the node's record and the clock are arguments. Logs and metrics are left.
pub mod Published
use algod_loadb_mesh.Base.{
  ℕ, zero, suc, ◌*◌, ◌/◌, min, Bool, true, false, not, ◌&&◌, ◌||◌, Option, none, some, List, [],
  ◌∷◌, ◌==◌, if◌then◌else◌, is_some, Time, max_duration, sub_time, second, Bytes, eqb, ℤ, pos,
  negsuc, ltb_ℤ, eqb_ℤ, put,
}
use algod_loadb_mesh.App.Options.{or_default}
use algod_loadb_mesh.Domain.Codec.{ok}
use algod_loadb_mesh.Domain.NodeRecord.{Node, static_equal}

-- `RegistrySyncOptions`; the refresh period is at least 0.
pub record SyncOptions : Type 0 where
  pub refresh_period : ℕ
  pub auto_register : Bool

-- The default of `NewRegistrySync`.
unfoldable sync_defaults : SyncOptions → SyncOptions
sync_defaults o = record o { refresh_period = or_default (300 * second) o.refresh_period }

-- The state behind the lock, and whether a refresh is asked for.
pub record SyncState : Type 0 where
  pub last_kick : Time
  pub kicked : Bool

-- `RefreshNow`.
unfoldable refresh_now : SyncOptions → Time → SyncState → SyncState
refresh_now o now s =
    if ltb_ℤ (sub_time now s.last_kick) (pos (o.refresh_period / 10))
    then s
    else record { last_kick = now; kicked = true }

-- `r.Version + 1`, on an int of 64 bits.
abbrev pub next_version : ℤ → ℤ
next_version (pos n) = if n == max_duration then negsuc max_duration else pos (suc n)
next_version (negsuc zero) = pos 0
next_version (negsuc (suc n)) = negsuc n

-- The first record of an id.
unfoldable pub find_record : Bytes → List Node → Option Node
find_record id [] = none
find_record id (r ∷ rs) = let rest = find_record id rs in if eqb r.id id then some r else rest

-- What `register` returns.
pub record Registration : Type 0 where
  pub own : Node
  pub is_written : Bool
  pub is_kept : Bool

abbrev pub first_version : Node → Node
first_version w = if eqb_ℤ w.version (pos 0) then record w { version = pos 1 } else w

-- The end of `register`; `put` is whether the registry takes a record.
abbrev pub put_record : (Node → Bool) → Node → ℕ → Registration
put_record put w round =
    let w' = record (first_version w) { updated_at = round } in
    let ok = put w' in record { own = w'; is_written = ok; is_kept = ok }

abbrev pub register_over : (Node → Bool) → Node → ℕ → Option Node → Registration
register_over put want round none = put_record put want round
register_over put want round (some r) =
    if static_equal r want
    then record { own = r; is_written = false; is_kept = true }
    else put_record put (record want { version = next_version r.version }) round

unfoldable pub register : (Node → Bool) → List Node → Node → ℕ → Registration
register put recs want round = register_over put want round (find_record want.id recs)

unfoldable pub upsert : List Node → Node → List Node
upsert [] r = r ∷ []
upsert (x ∷ xs) r = let rest = upsert xs r in if eqb x.id r.id then r ∷ xs else x ∷ rest

-- What a refresh ends with: the records for the directory and the cache, none when they cannot be
-- read, and whether this node is registered.
pub record Refreshed : Type 0 where
  pub given : Option (List Node)
  pub is_registered : Bool

abbrev pub refresh_own : (Node → Bool) → List Node → ℕ → Option Node → Refreshed
refresh_own put recs round none = record { given = some recs; is_registered = false }
refresh_own put recs round (some want) =
    let g = register put recs want round in
    record {
      given = some (if g.is_written then upsert recs g.own else recs);
      is_registered = g.is_kept;
    }

abbrev pub refresh_read :
    SyncOptions → (Node → Bool) → Option Node → Bool → Option (List Node × ℕ) → Refreshed
refresh_read o put want registered none = record { given = none; is_registered = registered }
refresh_read o put want registered (some (recs, round)) =
    if o.auto_register && not registered
    then refresh_own put recs round want
    else record { given = some recs; is_registered = registered }

-- `refresh`, of what `List` returns and of the record that this node wants, if it is known.
unfoldable pub refresh :
    SyncOptions → (Node → Bool) → Option Node → Bool → Option (List Node × ℕ) → Refreshed
refresh o put want registered listed = refresh_read o put want registered listed

-- The loop of `Run`: the wait after a refresh, and that of the next one.
pub data SyncWait : Type 0 where
  sleeps : ℕ → SyncWait
  until_asked : SyncWait

unfoldable first_retry : SyncOptions → ℕ
first_retry o = min o.refresh_period (10 * second) / 2

unfoldable sync_wait : SyncOptions → ℕ → Refreshed → SyncWait × ℕ
sync_wait o retry r =
    if not (is_some r.given) || (o.auto_register && not r.is_registered)
    then (sleeps retry, min (2 * retry) o.refresh_period)
    else (until_asked, first_retry o)
