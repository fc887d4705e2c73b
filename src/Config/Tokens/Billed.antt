-- ===== src/Config/Tokens/Billed.antt =====
-- The tokens of a configuration, as the limiter knows them.
use algod_loadb_mesh.Base.{
  ◌≡◌, refl, sym, ap, ◌∙◌, subst, inl, inr, Bool, true, false, false≢true, Option, none, some, List,
  [], ◌∷◌, ◌++◌, arith, Bool-cases, Bytes, eqb, eqb_refl, eq_of_eqb, Among,
}
use algod_loadb_mesh.App.Identity.{
  NetIp, TableOptions, Caller, loopback_addr, token_prefix, find_token, identify,
}
use algod_loadb_mesh.Config.Tokens.{
  RateToken, Checked, rejected, accepted, and_then, is_among, check_name, read_token, check_secret,
  finish_token, with_rest, finish_tokens, limit_tokens,
}
use algod_loadb_mesh.Domain.Endpoint.{Net}

-- What the loop leaves of every token: a value, and one that is not that of a token before.
abbrev pub AreFresh : List Bytes → List RateToken → Type 0
AreFresh values [] = Unit {0}
AreFresh values (u ∷ us) =
    (eqb u.token [] ≡ false) × (is_among u.token values ≡ false) × AreFresh (u.token ∷ values) us

accepted-injective : {A : Type 0} (a b : A) → accepted a ≡ accepted b → a ≡ b
accepted-injective a b e = ap (λ x. value_or a x) e
  where
    value_or : {A : Type 0} → A → Checked A → A
    value_or d (rejected e) = d
    value_or d (accepted x) = x

module _ (has_plan : Bytes → Bool) (read_secret : Bytes → Option Bytes) (admin_token : Bytes) where
  secret-facts :
      (values : List Bytes) (v u : RateToken)
      → check_secret has_plan read_secret admin_token values v ≡ accepted u
      → (eqb u.token [] ≡ false) × (is_among u.token values ≡ false)
  secret-facts values v u e = elim (Bool-cases (eqb v.token [])) [
    | inl a ↦ let e' = (rw a at e) in cc
    | inr a ↦ elim (Bool-cases (eqb v.token admin_token)) [
      | inl b ↦ let e' = (rw (a, b) at e) in cc
      | inr b ↦ elim (Bool-cases (is_among v.token values)) [
        | inl c ↦ let e' = (rw (a, b, c) at e) in cc
        | inr c ↦
            let same : v ≡ u = accepted-injective v u (rw (a, b, c) at e) in
            subst (λ x. (eqb x.token [] ≡ false) × (is_among x.token values ≡ false)) same (a, c)
      ]
    ]
  ]

  read-facts :
      (values : List Bytes) (x : Checked RateToken) (u : RateToken)
      → and_then x (check_secret has_plan read_secret admin_token values) ≡ accepted u
      → (eqb u.token [] ≡ false) × (is_among u.token values ≡ false)
  read-facts values (rejected e) u h = cc
  read-facts values (accepted v) u h = secret-facts values v u h

  token-facts :
      (values : List Bytes) (x : Checked RateToken) (u : RateToken)
      → and_then x (λ t.
        and_then
          (read_token has_plan read_secret admin_token t)
          (check_secret has_plan read_secret admin_token values))
        ≡ accepted u
      → (eqb u.token [] ≡ false) × (is_among u.token values ≡ false)
  token-facts values (rejected e) u h = cc
  token-facts values (accepted t) u h =
      read-facts values (read_token has_plan read_secret admin_token t) u h

  finish-AreFresh :
      (names values : List Bytes) (ts us : List RateToken)
      → finish_tokens has_plan read_secret admin_token names values ts ≡ accepted us
      → AreFresh values us
  unfolding finish_tokens
  finish-AreFresh names values [] us e = subst (AreFresh values) (accepted-injective [] us e) tt
  finish-AreFresh names values (t ∷ ts) us e =
      of_token (λ u vs p. finish-AreFresh (u.name ∷ names) (u.token ∷ values) ts vs p)
        (finish_token has_plan read_secret admin_token names values t) refl e
    where
      of_rest :
          (next : (u : RateToken) (vs : List RateToken)
            → finish_tokens has_plan read_secret admin_token (u.name ∷ names) (u.token ∷ values) ts
              ≡ accepted vs
            → AreFresh (u.token ∷ values) vs)
          (u : RateToken) (y : Checked (List RateToken))
          → finish_tokens has_plan read_secret admin_token (u.name ∷ names) (u.token ∷ values) ts
            ≡ y
          → with_rest has_plan read_secret admin_token u y ≡ accepted us
          → (eqb u.token [] ≡ false) × (is_among u.token values ≡ false)
          → AreFresh values us
      of_rest next u (rejected z) p q h = cc
      of_rest next u (accepted vs) p q h =
          subst (AreFresh values) (accepted-injective (u ∷ vs) us q) (h.0, h.1, next u vs p)

      of_token :
          (next : (u : RateToken) (vs : List RateToken)
            → finish_tokens has_plan read_secret admin_token (u.name ∷ names) (u.token ∷ values) ts
              ≡ accepted vs
            → AreFresh (u.token ∷ values) vs)
          (x : Checked RateToken)
          → finish_token has_plan read_secret admin_token names values t ≡ x
          → and_then x (λ u.
            with_rest has_plan read_secret admin_token u (
              finish_tokens has_plan read_secret admin_token
                (u.name ∷ names)
                (u.token ∷ values)
                ts))
            ≡ accepted us
          → AreFresh values us
      of_token next (rejected z) p q = cc
      of_token next (accepted u) p q =
          of_rest next u _ refl q
            (token-facts values (check_name has_plan read_secret admin_token names t) u p)

module _ (n : Net) (ip : NetIp) (o : TableOptions) where
  find-missing :
      (tok : Bytes) (values : List Bytes) (us : List RateToken)
      → AreFresh values us
      → is_among tok values ≡ true
      → find_token n ip o tok (limit_tokens us) ≡ none
  unfolding find_token limit_tokens
  find-missing tok values [] h m = refl
  find-missing tok values (u ∷ us) (a, b, h) m =
      let rest = find-missing tok (u.token ∷ values) us h (ground arith) in
      elim (Bool-cases (eqb u.token tok)) [
        | inl e ↦
            let same = eq_of_eqb u.token tok e in
            absurd (false≢true (sym b ∙ subst (λ s. is_among s values ≡ true) (sym same) m))
        | inr e ↦ rw rest (rw e refl)
      ]

  find-head :
      (v : RateToken) (us : List RateToken)
      → find_token n ip o v.token (limit_tokens us) ≡ none
      → find_token n ip o v.token (limit_tokens (v ∷ us))
        ≡ some (record { exempt = false; key = token_prefix ++ v.name; plan = v.plan })
  unfolding find_token limit_tokens
  find-head v us e = rw e (rw (eqb_refl v.token) refl)

  find-own :
      (values : List Bytes) (us : List RateToken) (u : RateToken)
      → AreFresh values us
      → Among u us
      → find_token n ip o u.token (limit_tokens us)
        ≡ some (record { exempt = false; key = token_prefix ++ u.name; plan = u.plan })
  unfolding find_token limit_tokens
  find-own values [] u h m = elim m [ ]
  find-own values (v ∷ us) u (a, b, h) (inl e) =
      let top : is_among v.token (v.token ∷ values) ≡ true = rw (eqb_refl v.token) refl in
      subst
        (λ (x : RateToken).
          find_token n ip o x.token (limit_tokens (v ∷ us))
          ≡ some (record { exempt = false; key = token_prefix ++ x.name; plan = x.plan }))
        (sym e) (find-head v us (find-missing v.token (v.token ∷ values) us h top))
  find-own values (v ∷ us) u (a, b, h) (inr m) = rw (find-own (v.token ∷ values) us u h m) refl

  fresh-named :
      (values : List Bytes) (us : List RateToken) (u : RateToken)
      → AreFresh values us
      → Among u us
      → eqb u.token [] ≡ false
  fresh-named values [] u h m = elim m [ ]
  fresh-named values (v ∷ us) u (a, b, h) (inl e) =
      subst (λ (x : RateToken). eqb x.token [] ≡ false) (sym e) a
  fresh-named values (v ∷ us) u (a, b, h) (inr m) = fresh-named (v.token ∷ values) us u h m

  -- With the tokens of a configuration that is accepted, a request from the network that has one of
  -- them is billed to the name and the plan of that token.
  pub finish_tokens-identify :
      (has_plan : Bytes → Bool) (read_secret : Bytes → Option Bytes) (admin_token : Bytes)
      (ts us : List RateToken) (u : RateToken) (c : Caller)
      → finish_tokens has_plan read_secret admin_token [] [] ts ≡ accepted us
      → o.tokens ≡ limit_tokens us
      → Among u us
      → eqb c.remote_addr loopback_addr ≡ false
      → identify n ip o c u.token
        ≡ some (record { exempt = false; key = token_prefix ++ u.name; plan = u.plan })
  unfolding identify
  finish_tokens-identify has_plan read_secret admin_token ts us u c e w m r =
      let h = finish-AreFresh has_plan read_secret admin_token [] [] ts us e in
      rw (r, fresh-named [] us u h m) (ap (find_token n ip o u.token) w ∙ find-own [] us u h m)
