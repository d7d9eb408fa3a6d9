-- ===== src/Autonomy/Loop/Masked.antt =====
-- The check before an execution, of `_pivot_hypothesis` and of protocol_compile, against the gates
-- that are configured.
use synthetos.Prelude.{
  leb, ◌≡◌, refl, ◌↔◌, Bool, true, false, ◌&&◌, ◌||◌, Option, none, holds, is_some, if◌then◌else◌,
}
use synthetos.Domain.{HardwareProfile, ExperimentSpec}
use synthetos.Autonomy.{AutonomyPolicy}
use synthetos.Autonomy.Gates.{
  GateName, before_hardware_escalation, before_network_execution, after_every_run,
  after_every_n_runs, evaluate_gates, is_hardware_escalation, detect_network_access,
  preview_next_spec, pause_at, pass,
}
use synthetos.Autonomy.Loop.Pivot.{check_execution, execution_gate}

-- What the check answers, by the tests of the gates.
abbrev answer : Bool → Bool → Bool → Bool → Option GateName
answer every n_runs hardware network =
    let r =
      if every
      then pause_at after_every_run
      else if n_runs
      then pause_at after_every_n_runs
      else if hardware
      then pause_at before_hardware_escalation
      else if network
      then pause_at before_network_execution
      else pass in
    if r.should_pause then execution_gate r.gate_name else none

answer_iff :
    (a b c d : Bool)
    → is_some (answer a b c d) ≡ true ↔ (a ≡ false) × (b ≡ false) × ((c || d) ≡ true)
answer_iff true b c d = ((λ h. cc), (λ (e, _, _). cc))
answer_iff false true c d = ((λ h. cc), (λ (_, e, _). cc))
answer_iff false false true d = ((λ h. (refl, refl, refl)), (λ h. refl))
answer_iff false false false true = ((λ h. (refl, refl, refl)), (λ h. refl))
answer_iff false false false false = ((λ h. cc), (λ (_, _, e). e))

and_false : (b : Bool) → (b && false) ≡ false
and_false true = refl
and_false false = refl

-- The check pauses an execution exactly when a gate for hardware or for the network is configured and
-- met and no gate by the number of runs is: such a gate masks the other two, although it does not
-- pause here itself.
pub check_execution_iff :
    (policy : AutonomyPolicy) (current : Option HardwareProfile) (next : ExperimentSpec)
    → let gates = policy.checkpoint_gates in
      is_some (check_execution policy current next) ≡ true
      ↔ (gates.after_every_run ≡ false)
        × (holds (λ n. leb n 0) gates.after_every_n_runs ≡ false)
        × ((gates.before_hardware_escalation && is_hardware_escalation current next.hardware_profile
              || gates.before_network_execution
                && detect_network_access next.code_plan next.build_recipe)
            ≡ true)
unfolding check_execution evaluate_gates preview_next_spec
check_execution_iff policy current next =
    let g = policy.checkpoint_gates in
    rw (and_false g.before_result_promotion) (
      answer_iff g.after_every_run (holds (λ n. leb n 0) g.after_every_n_runs)
        (g.before_hardware_escalation && is_hardware_escalation current next.hardware_profile)
        (g.before_network_execution && detect_network_access next.code_plan next.build_recipe))
