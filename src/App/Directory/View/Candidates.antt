-- ===== src/App/Directory/View/Candidates.antt =====
-- What a candidate of the snapshot says of the node behind it.
use algod_loadb_mesh.Base.{
  ℕ, ◌*◌, ◌≡◌, refl, sym, ap, ◌∙◌, ◌⊎◌, inl, inr, Bool, true, false, false≢true, Option, none, some,
  List, [], ◌∷◌, ◌++◌, arith, if◌then◌else◌, Bool-cases, if_cases, Time, sub_time, Bytes, ltb_bytes,
  Among, Among-append, pos, leb_ℤ, Among-sort_by, Float, IsOrdered,
}
use algod_loadb_mesh.App.Directory.{Peer, External, Directory, is_probed}
use algod_loadb_mesh.App.Directory.Checks.{is_fresh}
use algod_loadb_mesh.App.Directory.View.{
  quiet_upstream, recent_upstream, peer_upstream, external_upstream, peer_upstreams,
  external_upstreams, by_id, directory_snapshot,
}
use algod_loadb_mesh.App.Monitor.{LocalState}
use algod_loadb_mesh.App.Options.{DirectoryOptions, is_excluded}
use algod_loadb_mesh.Domain.Codec.{Heartbeat}
use algod_loadb_mesh.Domain.Eligible.{eligible}
use algod_loadb_mesh.Domain.Endpoint.{Net}
use algod_loadb_mesh.Domain.Judge.{observe, SyncJudge, judge}
use algod_loadb_mesh.Domain.Request.{RequestClass}
use algod_loadb_mesh.Domain.Select.{Mode, Weights, Selection, select}
use algod_loadb_mesh.Domain.Select.Choice.{InRange}
use algod_loadb_mesh.Domain.Select.Promise.{select_sound}
use algod_loadb_mesh.Domain.Upstream.{offline, reachable, peer, external, Stats, Upstream}

judge-away : (j : SyncJudge) (now : Time) (r b : ℕ) → (judge j now false r b).1 ≡ offline
unfolding judge observe
judge-away j now r b = ground arith

judge-reachable :
    (j : SyncJudge) (now : Time) (up : Bool) (r b : ℕ)
    → reachable (judge j now up r b).1 ≡ true
    → up ≡ true
unfolding reachable
judge-reachable j now true r b h = refl
judge-reachable j now false r b h = let e = judge-away j now r b in absurd (false≢true (rw e at h))

-- What the directory goes by: a heartbeat that says the peer is online, seen within `suspect_after`, or
-- that `probe_ok` is set and the latest probe, which may still run, began within two intervals.
abbrev pub IsLive : DirectoryOptions → Time → Peer → Type 0
IsLive o now p =
    ((hb : Heartbeat) × (p.hb ≡ some hb)
      × (hb.online ≡ true)
      × (leb_ℤ (sub_time now p.seen_at) (pos o.suspect_after) ≡ true))
    ⊎ ((p.probe_ok ≡ true) × (leb_ℤ (sub_time now p.probe_at) (pos (2 * o.probe_interval)) ≡ true))

module _ {R : Type 0} (f : Float R) (n : Net) (o : DirectoryOptions) (seen_stats : Bytes → Stats R)
    (node : LocalState) (now : Time) where
  quiet-IsLive :
      (id : Bytes) (p : Peer) (best : ℕ)
      → reachable (quiet_upstream f n o seen_stats node now id p best).1.health ≡ true
      → IsLive o now p
  unfolding reachable
  quiet-IsLive id p best h = elim (Bool-cases (is_probed o now p)) [
    | inl e ↦ inr (ground arith, ground arith)
    | inr e ↦ absurd (false≢true (rw e at h))
  ]

  recent-IsLive :
      (id : Bytes) (p : Peer) (best : ℕ) (hb : Option Heartbeat)
      → p.hb ≡ hb
      → reachable (recent_upstream f n o seen_stats node now id p best hb).1.health ≡ true
      → IsLive o now p
  recent-IsLive id p best none e h = quiet-IsLive id p best h
  recent-IsLive id p best (some hb) e h =
      elim (Bool-cases (leb_ℤ (sub_time now p.seen_at) (pos o.suspect_after))) [
        | inl k ↦
            inl (hb, e, judge-reachable p.judge now hb.online hb.last_round best (rw k at h), k)
        | inr k ↦ quiet-IsLive id p best (rw k at h)
      ]

  peer-IsLive :
      (id : Bytes) (p : Peer) (best : ℕ)
      → reachable (peer_upstream f n o seen_stats node now id p best).1.health ≡ true
      → IsLive o now p
  unfolding peer_upstream
  peer-IsLive id p best h = recent-IsLive id p best p.hb refl h

  -- What a routable candidate of kind `peer` rests on.
  abbrev pub IsBacked : List (Bytes × Peer) → Upstream R → Type 0
  IsBacked ps u =
      (e : Bytes × Peer) × Among e ps
      × (e.0 ≡ u.id)
      × (is_excluded o e.0 ≡ u.excluded)
      × (reachable u.health ≡ true → IsLive o now e.1)

  abbrev of_peer : Bytes × Peer → ℕ → Upstream R
  of_peer (id, p) best = (peer_upstream f n o seen_stats node now id p best).1

  peer_upstream-base :
      (id : Bytes) (p : Peer) (best : ℕ)
      → (of_peer (id, p) best).id ≡ id
        × ((of_peer (id, p) best).excluded ≡ is_excluded o id)
        × ((of_peer (id, p) best).kind ≡ peer)
  unfolding peer_upstream
  peer_upstream-base id p best = base p.hb
    where
      base :
          (hb : Option Heartbeat)
          → let u = (recent_upstream f n o seen_stats node now id p best hb).1 in
            (u.id ≡ id) × (u.excluded ≡ is_excluded o id) × (u.kind ≡ peer)
      base none = ground arith
      base (some hb) = ground arith

  peers-IsBacked :
      (ps : List (Bytes × Peer)) (best : ℕ) (u : Upstream R)
      → Among u (peer_upstreams f n o seen_stats node now ps best).1
      → IsBacked ps u
  unfolding peer_upstreams
  peers-IsBacked [] best u m = elim m [ ]
  peers-IsBacked ((id, p) ∷ ps) best u (inl e) =
      let (same, ex, kd) = peer_upstream-base id p best in
      (
        (id, p),
        inl refl,
        sym same ∙ ap (λ v. v.id) (sym e),
        sym ex ∙ ap (λ v. v.excluded) (sym e),
        λ h. peer-IsLive id p best (rw e at h),
      )
  peers-IsBacked ((id, p) ∷ ps) best u (inr m) =
      let (e, a, b, c, k) = peers-IsBacked ps best u m in (e, inr a, b, c, k)

  externals-kind :
      (es : List (Bytes × External)) (best : ℕ) (u : Upstream R)
      → Among u (external_upstreams f n o seen_stats node now es best)
      → u.kind ≡ external
  unfolding external_upstreams external_upstream
  externals-kind [] best u m = elim m [ ]
  externals-kind ((id, e) ∷ es) best u (inl q) =
      rw q
        (if_cases (λ (v : Upstream R). v.kind ≡ external) (is_fresh now e) (λ k. refl) (λ k. refl))
  externals-kind ((id, e) ∷ es) best u (inr m) = externals-kind es best u m

  backed :
      (ps : List (Bytes × Peer)) (es : List (Bytes × External)) (best : ℕ) (u : Upstream R)
      → Among u (
          (peer_upstreams f n o seen_stats node now (by_id f n o seen_stats node now ps) best).1
          ++ external_upstreams f n o seen_stats node now (by_id f n o seen_stats node now es) best)
      → u.kind ≡ peer
      → IsBacked ps u
  backed ps es best u m k = elim (Among-append u _ _ m) [
    | inl x ↦
        let w : IsBacked (by_id f n o seen_stats node now ps) u = peers-IsBacked _ best u x in
        (w.0, (Among-sort_by (λ a b. ltb_bytes a.0 b.0) w.0 ps).0 w.1, w.2, w.3, w.4)
    | inr x ↦ let w = externals-kind _ best u x in cc
  ]

  behind_local :
      {D : Type 0} (b : Bool) (d e : D) (l u : Upstream R) (us : List (Upstream R))
      → (let r : D × List (Upstream R) = if b then (d, us) else (e, l ∷ us) in Among u r.1)
      → (u ≡ l) ⊎ Among u us
  behind_local true d e l u us m = inr m
  behind_local false d e l u us m = m

  -- A candidate of kind `peer` is one of the directory's peers.
  snapshot-IsBacked :
      (d : Directory) (u : Upstream R)
      → Among u (directory_snapshot f n o seen_stats node now d).1.cands
      → u.kind ≡ peer
      → IsBacked d.peers u
  unfolding directory_snapshot
  snapshot-IsBacked d u m k = elim (behind_local o.no_local _ _ _ u _ m) [
    | inl x ↦ let w = ap (λ v. v.kind) x in cc
    | inr x ↦ backed d.peers d.externals _ u x k
  ]

  eligible-up :
      (u : Upstream R) (c : RequestClass) (best tol : ℕ)
      → eligible u c best tol ≡ true
      → (u.excluded ≡ false) × (reachable u.health ≡ true)
  unfolding eligible
  eligible-up u c best tol h = ground arith

  -- A peer that the router picks from a snapshot of the directory is one of its peers and is not
  -- excluded by the options. Its last heartbeat was seen within `suspect_after` and says that it is
  -- online, or else its state has `probe_ok` set and a latest probe that began within two probe
  -- intervals, and may still be running.
  pub snapshot_pick-IsLive :
      ⦃r : Float R⦄ (mode : Mode) (c : RequestClass) (best tol : ℕ) (w : Weights R)
      (rnd : Option (ℕ → ℕ → ℕ)) (ordered : IsOrdered r) (fair : InRange rnd) (d : Directory)
      (s : Selection R)
      → select mode (directory_snapshot f n o seen_stats node now d).1.cands c best tol w rnd
        ≡ some s
      → s.chosen.kind ≡ peer
      → (e : Bytes × Peer) × Among e d.peers
        × (e.0 ≡ s.chosen.id)
        × (is_excluded o e.0 ≡ false)
        × IsLive o now e.1
  snapshot_pick-IsLive mode c best tol w rnd ordered fair d s e k =
      let (v, m, h, p) =
        (select_sound mode (directory_snapshot f n o seen_stats node now d).1.cands c best tol w rnd
          ordered fair s e).0 in
      let up = eligible-up v c best tol h in
      let (x, a, same, ex, live) = snapshot-IsBacked d v m (sym (ap (λ y. y.kind) p) ∙ k) in
      (x, a, same ∙ sym (ap (λ y. y.id) p), ex ∙ up.0, live up.1)
