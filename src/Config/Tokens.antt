-- ===== src/Config/Tokens.antt =====
-- The tokens of the rate limits: the end of `finish` of internal/config/config.go, and what the agent
-- makes of them (internal/agent/agent.go). The plans and the files of secrets are arguments.
pub mod Billed
use algod_loadb_mesh.Base.{
  Bool, not, ◌&&◌, Option, none, some, List, [], ◌∷◌, map, if◌then◌else◌, Bytes, eqb, any,
}
use algod_loadb_mesh.App.Identity.{LimitToken}

-- `RateToken`.
pub record RateToken : Type 0 where
  pub name : Bytes
  pub token : Bytes
  pub token_file : Bytes
  pub plan : Bytes

-- The errors of a token.
pub data TokenError : Type 0 where
  unnamed name_twice no_secret no_such_plan unreadable_file set_twice empty_token is_admins
        same_token :
      TokenError

pub data Checked (A : Type 0) : Type 0 where
  rejected : TokenError → Checked A
  accepted : A → Checked A

abbrev pub and_then : {A B : Type 0} → Checked A → (A → Checked B) → Checked B
and_then (rejected e) g = rejected e
and_then (accepted a) g = g a

abbrev pub is_among : Bytes → List Bytes → Bool
is_among s ss = any (λ x. eqb x s) ss

module _ (has_plan : Bytes → Bool) (read_secret : Bytes → Option Bytes) (admin_token : Bytes) where
  -- The checks before the file is read.
  abbrev pub check_name : List Bytes → RateToken → Checked RateToken
  check_name names t =
      if eqb t.name []
      then rejected unnamed
      else if is_among t.name names
      then rejected name_twice
      else if eqb t.token [] && eqb t.token_file []
      then rejected no_secret
      else if not (has_plan t.plan)
      then rejected no_such_plan
      else accepted t

  abbrev pub with_secret : RateToken → Option Bytes → Checked RateToken
  with_secret t none = rejected unreadable_file
  with_secret t (some v) =
      if not (eqb t.token []) && not (eqb t.token v)
      then rejected set_twice
      else accepted (record t { token = v })

  abbrev pub read_token : RateToken → Checked RateToken
  read_token t =
      if not (eqb t.token_file []) then with_secret t (read_secret t.token_file) else accepted t

  -- The checks after it.
  abbrev pub check_secret : List Bytes → RateToken → Checked RateToken
  check_secret values t =
      if eqb t.token []
      then rejected empty_token
      else if eqb t.token admin_token
      then rejected is_admins
      else if is_among t.token values
      then rejected same_token
      else accepted t

  abbrev pub finish_token : List Bytes → List Bytes → RateToken → Checked RateToken
  finish_token names values t =
      and_then (check_name names t) (λ u. and_then (read_token u) (check_secret values))

  abbrev pub with_rest : RateToken → Checked (List RateToken) → Checked (List RateToken)
  with_rest u (rejected e) = rejected e
  with_rest u (accepted us) = accepted (u ∷ us)

  -- The loop, with the names and the values seen before.
  unfoldable pub finish_tokens : List Bytes → List Bytes → List RateToken → Checked (List RateToken)
  finish_tokens names values [] = accepted []
  finish_tokens names values (t ∷ ts) =
      and_then (finish_token names values t)
        (λ u. with_rest u (finish_tokens (u.name ∷ names) (u.token ∷ values) ts))

-- The tokens of the limiter.
abbrev pub limit_token : RateToken → LimitToken
limit_token t = record { name = t.name; token = t.token; plan = t.plan }

unfoldable pub limit_tokens : List RateToken → List LimitToken
limit_tokens ts = map limit_token ts
