-- ===== src/App/Link/Current.antt =====
-- The path that a link's heartbeats take.
use algod_loadb_mesh.Base.{
  ℕ, zero, suc, ◌≡◌, refl, sym, ap, ◌∙◌, subst, ◌≢◌, inl, inr, true, false, Option, none, some,
  some-injective, List, [], ◌∷◌, map, arith, Bool-cases, Time, get_elem?, All,
}
use algod_loadb_mesh.App.Link.{
  PathState, Link, is_alive, stat_of, stats, cur_path, same_index, choose_path,
}
use algod_loadb_mesh.Domain.Path.{PathStat, PathPolicy, choose}
use algod_loadb_mesh.Domain.Path.Policy.{IsChosen, choose_alive, choose-none}

-- Of the paths, the current one is alive, and there is none only if no path is.
abbrev pub IsServed : Link → Type 0
IsServed l =
    ((p : PathState) → cur_path l ≡ some p → is_alive p ≡ true)
    × (cur_path l ≡ none → All (λ p. is_alive p ≡ false) l.paths)

get-map :
    (ps : List PathState) (i : ℕ) (p : PathState)
    → get_elem? ps i ≡ some p
    → get_elem? (map stat_of ps) i ≡ some (stat_of p)
get-map [] i p e = cc
get-map (q ∷ qs) zero p e = ap (λ r. some (stat_of r)) (some-injective _ _ e)
get-map (q ∷ qs) (suc i) p e = get-map qs i p e

get-none :
    (ps : List PathState) (i : ℕ) (s : PathStat)
    → get_elem? ps i ≡ none
    → get_elem? (map stat_of ps) i ≢ some s
get-none [] i s e k = cc
get-none (q ∷ qs) zero s e k = cc
get-none (q ∷ qs) (suc i) s e k = get-none qs i s e k

dead-map :
    (ps : List PathState)
    → All (λ s. s.alive ≡ false) (map stat_of ps)
    → All (λ p. is_alive p ≡ false) ps
dead-map [] h = tt
dead-map (p ∷ ps) h = (h.0, dead-map ps h.1)

module _ (policy : PathPolicy) (now : Time) where
  chosen-IsServed :
      (l : Link) (idx : Option ℕ)
      → IsChosen (stats l) idx
      → (idx ≡ none → All (λ s. s.alive ≡ false) (stats l))
      → IsServed (record l { cur = idx })
  unfolding cur_path stats
  chosen-IsServed l none c d = (λ p e. cc, λ e. dead-map l.paths (d refl))
  chosen-IsServed l (some i) (s, at, alive) d = (
    λ p e.
        let k = some-injective _ _ (sym (get-map l.paths i p e) ∙ at) in
        ap (λ r. r.alive) k ∙ alive,
    λ e. absurd (get-none l.paths i s e at),
  )

  same_index-eq : (a b : Option ℕ) → same_index a b ≡ true → a ≡ b
  same_index-eq none none e = refl
  same_index-eq (some i) (some j) e = let k : i ≡ j = ground arith in ap some k
  same_index-eq none (some j) e = cc
  same_index-eq (some i) none e = cc

  -- On a node, a link's heartbeats always take an alive path, once the policy has run, and none only
  -- when all of its paths are dead.
  pub choose_path-IsServed : (l : Link) → IsServed (choose_path false policy now l).0
  unfolding choose_path cur_path
  choose_path-IsServed l =
      let idx = (choose policy now (stats l) l.cur l.switched_at).0 in
      let served =
        chosen-IsServed l idx (choose_alive policy now (stats l) l.switched_at l.cur)
          (choose-none policy now (stats l) l.switched_at l.cur) in
      elim (Bool-cases (same_index idx l.cur)) [
        | inl e ↦
            let k = same_index-eq idx l.cur e in
            rw e (subst (λ c. IsServed (record l { cur = c })) k served)
        | inr e ↦ rw e served
      ]
