-- ===== src/Tests/Serving.antt =====
-- A public balancer: who is let in, who pays, and what a client gets of several answers.
use algod_loadb_mesh.Base.{
  ℕ, ◌*◌, ◌≤◌, ◌≡◌, refl, inl, inr, true, false, Option, none, some, List, [], ◌∷◌, ◌++◌, arith,
  if◌then◌else◌, second, Bytes, codes, eqb, All, Among, lookup, assign,
}
use algod_loadb_mesh.App.Account.{Account}
use algod_loadb_mesh.App.Fan.{FanResult, Heard, answer, collect, collect_broadcast}
use algod_loadb_mesh.App.Fan.Answers.{Verdict, answers_of, Says, IsNoWorse, collect-IsBest}
use algod_loadb_mesh.App.Fan.Broadcasts.{IsOutcome, collect_broadcast-IsOutcome}
use algod_loadb_mesh.App.Handle.{AuthOptions, billed, authorize}
use algod_loadb_mesh.App.Handle.Grants.{IsEntitled, authorize-IsEntitled}
use algod_loadb_mesh.App.Identity.{
  exempt_identity, NetIp, TableOptions, Caller, loopback_addr, token_prefix, identify,
}
use algod_loadb_mesh.App.Limiter.{Limiter}
use algod_loadb_mesh.App.Limiter.Saved.{SavedBuckets, named_token, plan_of, load_all, load}
use algod_loadb_mesh.App.Limiter.Tracked.{
  count_ip, Event, requested, ticked, swept, table_run, table_run_bounded,
}
use algod_loadb_mesh.App.RegistrySync.{SyncOptions}
use algod_loadb_mesh.Config.Tokens.{RateToken, accepted, finish_tokens, limit_tokens}
use algod_loadb_mesh.Config.Tokens.Billed.{finish_tokens-identify}
use algod_loadb_mesh.Domain.Endpoint.{Net}
use algod_loadb_mesh.Domain.Plan.{Plan}
use algod_loadb_mesh.Tests.Counting.{limiter_options, account}
use algod_loadb_mesh.Tests.Fixtures.{nat_float, read}
use algod_loadb_mesh.Tests.Mesh.{toy_net}

-- One trusted proxy, whose address is the letter p.
abbrev one_proxy : NetIp
one_proxy = record {
  parse = λ s. if eqb s [] then none else some s;
  is6 = λ a. false;
  prefix_of = λ a n. none;
  contains = λ p a. eqb p a;
}

abbrev table_options : TableOptions
table_options = record {
  tokens = [];
  anonymous_plan = codes "free";
  trusted_proxies = codes "p" ∷ [];
  ipv6_prefix = 64;
  max_keys = 1;
}

-- Addresses without a port.
abbrev bare_net : Net
bare_net = record toy_net { split_host_port = λ s. none }

-- More clients than the table holds.
abbrev crowd : List (Event ℕ)
crowd =
    requested (codes "ip:c") account.plan read 5000 1 second
    ∷ requested (codes "ip:d") account.plan read 5000 2 second
    ∷ ticked (2 * second)
    ∷ requested (codes "ip:e") account.plan read 5000 3 (3 * second)
    ∷ swept (4 * second)
    ∷ []

abbrev empty_table : Limiter ℕ
empty_table = record { accounts = []; overflow = none }

table_run_bounded_example :
    count_ip (table_run ⦃f = nat_float⦄ table_options limiter_options empty_table crowd).accounts
    ≤ 1
table_run_bounded_example =
    table_run_bounded table_options limiter_options empty_table crowd (omega arith)

abbrev secured : AuthOptions
secured = record { admin_token = codes "admin"; client_token = codes "client"; has_limiter = false }

proceeds : authorize secured read false (codes "client") none ≡ billed exempt_identity
unfolding authorize eqb
proceeds = refl

authorize-IsEntitled_example : IsEntitled secured read false (codes "client") none exempt_identity
authorize-IsEntitled_example =
    authorize-IsEntitled secured read false (codes "client") none exempt_identity proceeds

-- A lookup that three nodes answer: not found, in the pool, and confirmed.
abbrev answered : Bytes → ℕ → FanResult
answered id status = record { id = id; status = some status; body = [] }

abbrev two_bodies : FanResult → Option (ℕ × Bytes)
two_bodies r = some (if eqb r.id (codes "n3") then 7 else 0, [])

abbrev asked_ids : List Bytes
asked_ids = codes "n1" ∷ codes "n2" ∷ codes "n3" ∷ []

abbrev two_more : List Heard
two_more = answer (answered (codes "n2") 200) ∷ answer (answered (codes "n3") 200) ∷ []

collect-IsBest_example :
    (c : FanResult) × (collect two_bodies asked_ids none
        (answer (answered (codes "n1") 404) ∷ two_more)
      ≡ some c)
    × Among c (answered (codes "n1") 404 ∷ answers_of two_more)
    × ((v : Verdict) × Says two_bodies c v
        × All
            (IsNoWorse two_bodies asked_ids c v)
            (answered (codes "n1") 404 ∷ answers_of two_more))
collect-IsBest_example =
    collect-IsBest two_bodies asked_ids (answered (codes "n1") 404) two_more refl

abbrev refusals : List FanResult
refusals = answered (codes "n1") 400 ∷ answered (codes "n2") 503 ∷ []

collect_broadcast-IsOutcome_example : IsOutcome refusals (collect_broadcast none 0 refusals)
collect_broadcast-IsOutcome_example = collect_broadcast-IsOutcome refusals

abbrev self_registering : SyncOptions
self_registering = record { refresh_period = 300 * second; auto_register = true }

abbrev free_plans : List (Bytes × Plan ℕ)
free_plans = (codes "free", account.plan) ∷ []

abbrev half_spent : SavedBuckets ℕ
half_spent = record {
  saved_minute = record { level = 30; at_time = second };
  saved_day = record { level = 30; at_time = second };
}

abbrev seen_table : Limiter ℕ
seen_table = record { accounts = (codes "ip:c", account) ∷ []; overflow = none }

-- The saved clients are all loaded, also into a table that holds fewer.
loads_all :
    count_ip
      (load table_options limiter_options free_plans empty_table second
        ((codes "ip:c", half_spent) ∷ (codes "ip:d", half_spent) ∷ [])).accounts
    ≡ 2
unfolding load load_all plan_of assign lookup eqb named_token
loads_all = refl

-- Two tokens, one of them in a file.
abbrev two_tokens : List RateToken
two_tokens =
    record { name = codes "a"; token = codes "x"; token_file = []; plan = codes "free" }
    ∷ record { name = codes "b"; token = []; token_file = codes "f"; plan = codes "free" }
    ∷ []

abbrev token_b : RateToken
token_b = record {
  name = codes "b";
  token = codes "y";
  token_file = codes "f";
  plan = codes "free";
}

abbrev finished : List RateToken
finished =
    record { name = codes "a"; token = codes "x"; token_file = []; plan = codes "free" }
    ∷ token_b
    ∷ []

finishes :
    finish_tokens (λ p. true) (λ path. some (codes "y")) (codes "admin") [] [] two_tokens
    ≡ accepted finished
unfolding finish_tokens eqb
finishes = refl

abbrev token_options : TableOptions
token_options = record table_options { tokens = limit_tokens finished }

abbrev remote_caller : Caller
remote_caller = record { remote_addr = codes "c"; hops = [] }

not_loopback : eqb remote_caller.remote_addr loopback_addr ≡ false
unfolding eqb
not_loopback = refl

finish_tokens-identify_example :
    identify bare_net one_proxy token_options remote_caller (codes "y")
    ≡ some (record { exempt = false; key = token_prefix ++ codes "b"; plan = codes "free" })
finish_tokens-identify_example =
    finish_tokens-identify bare_net one_proxy token_options (λ p. true) (λ path. some (codes "y"))
      (codes "admin") two_tokens finished token_b remote_caller finishes refl (inr (inl refl))
      not_loopback
