-- ===== src/Autonomy/Gates/Firing.antt =====
-- When a checkpoint gate of libs/autonomy/gates.py fires, each by its own condition.
use synthetos.Prelude.{
  if◌then◌else◌, Bool-cases, ℕ, ◌≡◌, ◌<◌, ◌⊎◌, inl, inr, Bool, true, false, arith, leb, holds, ◌&&◌,
}
use synthetos.Autonomy.{AutonomyPolicy}
use synthetos.Autonomy.Gates.{
  GateContext, GateName, GateResult, after_every_run, after_every_n_runs,
  before_hardware_escalation, before_result_promotion, before_network_execution,
  is_hardware_escalation, evaluate_gates, pass, pause_at,
}

-- The condition under which a gate is configured and met.
abbrev pub is_met : AutonomyPolicy → GateContext → GateName → Bool
is_met policy c after_every_run = policy.checkpoint_gates.after_every_run
is_met policy c after_every_n_runs =
    holds (λ n. leb n c.runs_since_last_gate) policy.checkpoint_gates.after_every_n_runs
is_met policy c before_hardware_escalation =
    policy.checkpoint_gates.before_hardware_escalation
    && is_hardware_escalation c.current_hardware_profile c.next_hardware_profile
is_met policy c before_result_promotion =
    policy.checkpoint_gates.before_result_promotion && c.is_result_promotion
is_met policy c before_network_execution =
    policy.checkpoint_gates.before_network_execution && c.has_network_access

-- The priority of a gate.
abbrev pub rank : GateName → ℕ
rank after_every_run = 1
rank after_every_n_runs = 2
rank before_hardware_escalation = 3
rank before_result_promotion = 4
rank before_network_execution = 5

-- Either no gate is met and the loop goes on, or the loop pauses at a gate that is met and no gate
-- of higher priority is.
abbrev pub IsDecision : (GateName → Bool) → GateResult → Type 0
IsDecision met r =
    (r ≡ pass) × ((g : GateName) → met g ≡ false)
    ⊎ ((g : GateName) × (r ≡ pause_at g)
        × (met g ≡ true)
        × ((k : GateName) → rank k < rank g → met k ≡ false))

-- The chain of tests, over any answers to them.
abbrev first_met : (GateName → Bool) → GateResult
first_met met =
    if met after_every_run
    then pause_at after_every_run
    else if met after_every_n_runs
    then pause_at after_every_n_runs
    else if met before_hardware_escalation
    then pause_at before_hardware_escalation
    else if met before_result_promotion
    then pause_at before_result_promotion
    else if met before_network_execution
    then pause_at before_network_execution
    else pass

first_met-IsDecision : (met : GateName → Bool) → IsDecision met (first_met met)
first_met-IsDecision met = elim (Bool-cases (met after_every_run)) [
  | inl a ↦ inr (after_every_run, rw a, a, λ k h. ground arith)
  | inr a ↦ elim (Bool-cases (met after_every_n_runs)) [
    | inl b ↦ inr (after_every_n_runs, rw (a, b), b, λ k h. ground arith)
    | inr b ↦ elim (Bool-cases (met before_hardware_escalation)) [
      | inl c ↦ inr (before_hardware_escalation, rw (a, b, c), c, λ k h. ground arith)
      | inr c ↦ elim (Bool-cases (met before_result_promotion)) [
        | inl d ↦ inr (before_result_promotion, rw (a, b, c, d), d, λ k h. ground arith)
        | inr d ↦ elim (Bool-cases (met before_network_execution)) [
          | inl e ↦ inr (before_network_execution, rw (a, b, c, d, e), e, λ k h. ground arith)
          | inr e ↦ inl (rw (a, b, c, d, e), λ g. ground arith)
        ]
      ]
    ]
  ]
]

-- The gates pause the loop exactly when one of them is configured and met, and then at the one of
-- highest priority.
pub evaluate_gates-IsDecision :
    (policy : AutonomyPolicy) (c : GateContext)
    → IsDecision (is_met policy c) (evaluate_gates policy c)
unfolding evaluate_gates
evaluate_gates-IsDecision policy c = first_met-IsDecision (is_met policy c)
