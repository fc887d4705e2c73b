-- ===== src/Domain/Plan/Check.antt =====
-- What a plan lets a simulate request ask for, and what a request is billed as.
-- A cap of 0 is no cap.
use algod_loadb_mesh.Base.{ℕ, ◌≤◌, ◌≡◌, ◌↔◌, ◌⊎◌, true, false, none, arith}
use algod_loadb_mesh.Domain.Plan.{SimulateCaps, check}
use algod_loadb_mesh.Domain.Request.{SimulateNeeds}

abbrev Caps : ℕ → ℕ → Type 0
Caps cap n = (cap ≡ 0) ⊎ (n ≤ cap)

pub record IsWithin (c : SimulateCaps) (n : SimulateNeeds) : Type 0 where
  pub groups_within : Caps c.max_groups n.groups
  pub rounds_within : Caps c.max_rounds n.rounds
  pub budget_within : Caps c.max_extra_opcode_budget n.extra_opcode_budget
  pub resources_within : c.deny_unnamed_resources ≡ true → n.unnamed_resources ≡ false
  pub trace_within : c.deny_exec_trace ≡ true → n.exec_trace ≡ false

-- `Check` gives no reason exactly when a simulate request is within every cap of the plan.
pub check_iff : (c : SimulateCaps) (n : SimulateNeeds) → (check c n ≡ none) ↔ IsWithin c n
unfolding check
check_iff c n = (
  λ e. ground arith,
  λ h. ground (
    arith, h.groups_within, h.rounds_within, h.budget_within, h.resources_within, h.trace_within,
  ),
)
