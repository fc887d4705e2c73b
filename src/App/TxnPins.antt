-- ===== src/App/TxnPins.antt =====
-- Which node took a transaction: internal/app/txnpins.go. The lock of the pins is held for the whole
-- of each operation, which here takes the pins and returns the new ones. `ttl` is not negative.
pub mod Lifetime
pub mod Expiry
use algod_loadb_mesh.Base.{
  ℕ, ◌*◌, Option, none, some, List, [], if◌then◌else◌, Time, sub_time, Bytes, eqb, pos, leb_ℤ,
  lookup, put,
}

pub record TxnPins : Type 0 where
  pub ttl : ℕ
  pub cur : List (Bytes × Bytes)
  pub prev : List (Bytes × Bytes)
  pub rotated : Time

abbrev pub new_txn_pins : ℕ → Time → TxnPins
new_txn_pins ttl now = record { ttl = ttl; cur = []; prev = []; rotated = now }

unfoldable pub rotate : TxnPins → Time → TxnPins
rotate p now =
    let age = sub_time now p.rotated in
    if leb_ℤ (pos (2 * p.ttl)) age
    then record p { prev = []; cur = []; rotated = now }
    else if leb_ℤ (pos p.ttl) age
    then record p { prev = p.cur; cur = []; rotated = now }
    else p

-- `p.cur[txid] = upstream`, once the pins are rotated.
abbrev pub pin : Bytes → Bytes → TxnPins → TxnPins
pin txid upstream p = record p { cur = put txid upstream p.cur }

unfoldable pub remember : TxnPins → Bytes → Bytes → Time → TxnPins
remember p txid upstream now = if eqb txid [] then p else pin txid upstream (rotate p now)

-- The pin of the newer generation, else that of the older one.
abbrev pub pinned : Option Bytes → Option Bytes → Option Bytes
pinned (some u) older = some u
pinned none older = older

unfoldable pub found : TxnPins → Bytes → Option Bytes
found p txid = pinned (lookup txid p.cur) (lookup txid p.prev)

unfoldable pub recall : TxnPins → Bytes → Time → TxnPins × Option Bytes
recall p txid now = let p' = rotate p now in (p', found p' txid)
