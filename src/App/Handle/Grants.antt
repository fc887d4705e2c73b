-- ===== src/App/Handle/Grants.antt =====
-- Who is let through, and on what terms.
use algod_loadb_mesh.Base.{
  ◌≡◌, refl, sym, ◌∙◌, ◌≢◌, ◌⊎◌, inl, inr, Bool, true, false, false≢true, ◌||◌, Option, none, some,
  [], arith, Bool-cases, Bytes, eqb, eqb_refl, eq_of_eqb,
}
use algod_loadb_mesh.App.Handle.{
  AuthOptions, billed, is_admin, or_unauthorized, grant, is_open, authorize,
}
use algod_loadb_mesh.App.Identity.{Identity}
use algod_loadb_mesh.Domain.Request.{RequestClass}

-- Why a request may proceed, and who pays for it.
pub data IsEntitled (o : AuthOptions) (class : RequestClass) (health : Bool) (tok : Bytes)
    (known : Option Identity) (id : Identity) : Type 0 where
  by_admin : o.admin_token ≢ [] → tok ≡ o.admin_token → IsEntitled o class health tok known id
  by_health : health ≡ true → IsEntitled o class health tok known id
  open_agent :
      class.agent ≡ true
      → o.admin_token ≡ []
      → o.client_token ≡ []
      → o.has_limiter ≡ false
      → IsEntitled o class health tok known id
  by_limiter :
      class.agent ≡ false
      → o.has_limiter ≡ true
      → known ≡ some id
      → IsEntitled o class health tok known id
  by_client :
      class.agent ≡ false
      → o.has_limiter ≡ false
      → (o.client_token ≡ []) ⊎ (tok ≡ o.client_token)
      → IsEntitled o class health tok known id

module _ (o : AuthOptions) (class : RequestClass) (health : Bool) (tok : Bytes)
    (known : Option Identity) (id : Identity) where
  nonempty : (s : Bytes) → eqb s [] ≡ false → s ≢ []
  nonempty s h e = false≢true (sym h ∙ (rw e (eqb_refl [])))

  admin-IsEntitled : (is_admin o tok || health) ≡ true → IsEntitled o class health tok known id
  admin-IsEntitled h = elim (Bool-cases health) [
    | inl e ↦ by_health e
    | inr e ↦
        let a : eqb o.admin_token [] ≡ false = ground (arith, h, e) in
        let b : eqb tok o.admin_token ≡ true = ground (arith, h, e) in
        by_admin (nonempty o.admin_token a) (eq_of_eqb tok o.admin_token b)
  ]

  client-IsEntitled :
      class.agent ≡ false
      → o.has_limiter ≡ false
      → (eqb o.client_token [] || eqb tok o.client_token) ≡ true
      → IsEntitled o class health tok known id
  client-IsEntitled a l h = elim (Bool-cases (eqb o.client_token [])) [
    | inl e ↦ by_client a l (inl (eq_of_eqb o.client_token [] e))
    | inr e ↦
        let k : eqb tok o.client_token ≡ true = ground (arith, h) in
        by_client a l (inr (eq_of_eqb tok o.client_token k))
  ]

  known-some : (r : Option Identity) → or_unauthorized r ≡ billed id → r ≡ some id
  known-some none e = cc
  known-some (some j) e = ground arith

  -- What a request that proceeds has passed.
  abbrev Passed : Bool → Bool → Bool → Bool → Bool → Type 0
  Passed exempt opened agent limited_by client =
      (exempt ≡ true)
      ⊎ ((opened ≡ true)
          ⊎ (((agent ≡ false) × (limited_by ≡ true) × (known ≡ some id))
              ⊎ ((agent ≡ false) × (limited_by ≡ false) × (client ≡ true))))

  grant-Passed :
      (exempt opened tokenless agent limited_by client : Bool)
      → grant exempt opened tokenless agent limited_by client known ≡ billed id
      → Passed exempt opened agent limited_by client
  grant-Passed true p t a l c e = inl refl
  grant-Passed false true t a l c e = inr (inl refl)
  grant-Passed false false true a l c e = cc
  grant-Passed false false false true l c e = cc
  grant-Passed false false false false true c e = inr (inr (inl (refl, refl, known-some known e)))
  grant-Passed false false false false false true e = inr (inr (inr (refl, refl, refl)))
  grant-Passed false false false false false false e = cc

  open-IsEntitled : is_open o class ≡ true → IsEntitled o class health tok known id
  open-IsEntitled h =
      let a : eqb o.admin_token [] ≡ true = ground arith in
      let c : eqb o.client_token [] ≡ true = ground arith in
      open_agent (ground arith) (eq_of_eqb o.admin_token [] a) (eq_of_eqb o.client_token [] c)
        (ground arith)

  -- Nobody proceeds without the admin token, but for health probes, an agent without any tokens and
  -- rate limits, whoever the limiter bills, and, without a limiter, clients with the client token if
  -- there is one.
  pub authorize-IsEntitled :
      authorize o class health tok known ≡ billed id → IsEntitled o class health tok known id
  unfolding authorize
  authorize-IsEntitled h = elim (grant-Passed _ _ _ _ _ _ h) [
    | inl a ↦ admin-IsEntitled a
    | inr (inl a) ↦ open-IsEntitled a
    | inr (inr (inl (a, l, k))) ↦ by_limiter a l k
    | inr (inr (inr (a, l, c))) ↦ client-IsEntitled a l c
  ]
