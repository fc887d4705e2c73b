-- ===== src/App/Directory/Records/Peers.antt =====
-- Which records become peers and balancers.
use algod_loadb_mesh.Base.{
  ◌≡◌, refl, sym, ap, ◌∙◌, subst, inl, inr, Bool, true, false, false≢true, not, ◌&&◌, ◌||◌, Option,
  none, List, [], ◌∷◌, arith, if◌then◌else◌, Bool-cases, is_some, Time, Bytes, eqb, eqb_refl,
  eq_of_eqb, any, lookup, assign, lookup-assign, lookup-assign_other, lookup-keep_keys,
}
use algod_loadb_mesh.App.Directory.{Peer, Directory}
use algod_loadb_mesh.App.Directory.Records.{
  Update, is_skipped, set_record, set_each, start_update, set_records,
}
use algod_loadb_mesh.App.Monitor.{LocalState}
use algod_loadb_mesh.App.Options.{DirectoryOptions}
use algod_loadb_mesh.Domain.Endpoint.{Net}
use algod_loadb_mesh.Domain.NodeRecord.{Node, is_balancer}

-- A record of this network, if that is known, that is not this agent's own.
abbrev pub is_ours : DirectoryOptions → Bytes → Node → Bool
is_ours o network r = not (eqb r.id o.local_id) && (eqb network [] || eqb r.network network)

abbrev pub is_peer_record : DirectoryOptions → Bytes → Bytes → Node → Bool
is_peer_record o network id r = eqb id r.id && (is_ours o network r && not (is_balancer r))

abbrev pub is_balancer_record : DirectoryOptions → Bytes → Bytes → Node → Bool
is_balancer_record o network id r = eqb id r.id && (is_ours o network r && is_balancer r)

skipped-ours :
    (o : DirectoryOptions) (network : Bytes) (r : Node) (b : Bool)
    → is_skipped o network r ≡ b
    → is_ours o network r ≡ not b
skipped-ours o network r b e = ground arith

eqb_symm : (a b : Bytes) → eqb a b ≡ eqb b a
eqb_symm a b = elim (Bool-cases (eqb a b)) [
  | inl e ↦ let s = eq_of_eqb a b e in rw s refl
  | inr e ↦ elim (Bool-cases (eqb b a)) [
    | inl k ↦ let s = eq_of_eqb b a k in rw s refl
    | inr k ↦ e ∙ sym k
  ]
]

has-assign :
    {A : Type 0} (k id : Bytes) (v : A) (m : List (Bytes × A))
    → is_some (lookup id (assign k v m)) ≡ (eqb id k || is_some (lookup id m))
has-assign k id v m = elim (Bool-cases (eqb k id)) [
  | inl e ↦
      let s = eq_of_eqb k id e in
      let t = ap is_some (lookup-assign k v m) in rw s (rw (eqb_refl id) (rw s at t))
  | inr e ↦ let t = ap is_some (lookup-assign_other k id v m e) in rw (eqb_symm id k ∙ e) t
]

regroup : (p q i : Bool) {v w : Bool} → w ≡ (q || v) → v ≡ ((p || false) || i) → w ≡ ((p || q) || i)
regroup true true i k l = ground arith
regroup true false i k l = ground arith
regroup false true i k l = ground arith
regroup false false i k l = ground arith

module _ (n : Net) (o : DirectoryOptions) (now : Time) (id : Bytes) where
  -- The ids seen are those of peers, and the loop's tests so far.
  abbrev IsListed : Bytes → Update → List Node → Update → Type 0
  IsListed network u rs v =
      (v.dir.network ≡ network)
      × (any (eqb id) v.seen ≡ any (is_peer_record o network id) rs || any (eqb id) u.seen)
      × (is_some (lookup id v.links)
          ≡ any (is_balancer_record o network id) rs || is_some (lookup id u.links))
      × (any (eqb id) v.seen ≡ true → is_some (lookup id v.dir.peers) ≡ true)

  abbrev HasSeen : Update → Type 0
  HasSeen u = any (eqb id) u.seen ≡ true → is_some (lookup id u.dir.peers) ≡ true

  set_record-IsListed :
      (u : Update) (r : Node)
      → HasSeen u
      → IsListed u.dir.network u (r ∷ []) (set_record n o now u r)
  set_record-IsListed u r h = elim (Bool-cases (is_skipped o u.dir.network r)) [
    | inl e ↦
        let s = skipped-ours o u.dir.network r true e in
        rw (e, s) (refl, ground arith, ground arith, h)
    | inr e ↦
        let s = skipped-ours o u.dir.network r false e in
        elim (Bool-cases (is_balancer r)) [
          | inl b ↦
              rw (e, s) (rw b (refl, ground arith, has-assign r.id id _ u.links ∙ ground arith, h))
          | inr b ↦
              rw (e, s)
                (rw b (
                  refl,
                  ground arith,
                  ground arith,
                  λ k. has-assign r.id id _ u.dir.peers ∙ ground (arith, h),
                ))
        ]
  ]

  set_each-IsListed :
      (network : Bytes) (u : Update) (rs : List Node)
      → u.dir.network ≡ network
      → HasSeen u
      → IsListed network u rs (set_each n o now u rs)
  unfolding set_each
  set_each-IsListed network u [] e h = (e, refl, refl, h)
  set_each-IsListed network u (r ∷ rs) e h =
      let (a, b, c, s) =
        subst (λ k. IsListed k u (r ∷ []) (set_record n o now u r)) e (set_record-IsListed u r h) in
      let (x, y, z, t) = set_each-IsListed network (set_record n o now u r) rs a s in
      (
        x,
        regroup (is_peer_record o network id r) (any (is_peer_record o network id) rs)
            (any (eqb id) u.seen) y b,
        regroup (is_balancer_record o network id r) (any (is_balancer_record o network id) rs)
            (is_some (lookup id u.links)) z c,
        t,
      )

  -- After the registry's records are set, the peers are the nodes and the balancers the balancers
  -- among them, of the local node's network if that is known, and never this agent itself.
  pub set_records_peers :
      (d : Directory) (node : LocalState) (recs : List Node)
      → let network = node.caps.genesis_id in
        let d' = (set_records n o now d node recs).0 in
        (is_some (lookup id d'.peers) ≡ any (is_peer_record o network id) recs)
        × (is_some (lookup id d'.balancers) ≡ any (is_balancer_record o network id) recs)
  unfolding set_records lookup
  set_records_peers d node recs =
      let (a, b, c, h) =
        set_each-IsListed node.caps.genesis_id (start_update n o now d node) recs refl
          (λ e. absurd (false≢true e)) in
      let w = set_each n o now (start_update n o now d node) recs in
      (
        ap is_some (lookup-keep_keys (λ j. any (eqb j) w.seen) id w.dir.peers)
            ∙ shown (any (eqb id) w.seen) _ _ (b ∙ or_false _) h,
        c ∙ or_false _,
      )
    where
      or_false : (x : Bool) → (x || false) ≡ x
      or_false true = refl
      or_false false = refl

      shown :
          (s x : Bool) (m : Option Peer)
          → s ≡ x
          → (s ≡ true → is_some m ≡ true)
          → is_some (if s then m else none) ≡ x
      shown true x m e k = k refl ∙ e
      shown false x m e k = e
