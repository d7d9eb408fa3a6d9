-- ===== src/Remediation/Strategies/Limits.antt =====
-- What the strategies of libs/remediation/strategies.py never do.
use Prim.Native.Nat.{◌/◌}
use Prim.Native.String.{String}
use synthetos.Prelude.{
  ℕ, ◌*◌, leb, min, ◌≡◌, refl, ◌≤◌, ◌<◌, ◌⊎◌, inl, inr, Bool, true, false, Option, none, some, List,
  [], ◌∷◌, if◌then◌else◌, arith, Bool-cases, or_default, length, length-take-le,
}
use synthetos.Remediation.Strategies.{
  FailureClass, metric_parse, dependency, oom, timeout, invalid_artifact, runtime, unknown,
  Overrides, extra_pip_packages, memory_gb, timeout_s, StrategyResult, gigabytes, Failure,
  memory_cap, timeout_cap, parse_memory, broad_debug_result, needs_escalation,
  extract_missing_modules, without_repeats, install, more_memory, more_time, repair, select_for,
  select_strategy,
}

-- The resources that a failed run had.
abbrev pub had_memory : Failure → ℕ
had_memory f = parse_memory (or_default f.memory (gigabytes 16))

abbrev pub had_time : Failure → ℕ
had_time f = or_default f.timeout 3600

-- Overrides that raise a limit do so above what the run had, and within the cap.
abbrev pub IsRaise : Failure → Overrides → Type 0
IsRaise f (memory_gb n) = (had_memory f < n) × (n ≤ memory_cap)
IsRaise f (timeout_s n) = (had_time f < n) × (n ≤ timeout_cap)
IsRaise f (extra_pip_packages names) = length names ≤ 10
IsRaise f _ = Unit

-- After a focused attempt at the class, only a broad one or none.
abbrev pub IsEscalated : Failure → StrategyResult → Type 0
IsEscalated f r = needs_escalation f ≡ true → (r ≡ broad_debug_result) ⊎ (r.remediable ≡ false)

more_memory-IsRaise : (f : Failure) → IsRaise f (more_memory (had_memory f)).overrides
unfolding more_memory
more_memory-IsRaise f = elim (Bool-cases (leb (min (had_memory f * 2) memory_cap) (had_memory f))) [
  | inl e ↦ rw e tt
  | inr e ↦ rw e (ground arith, omega arith)
]

more_time-IsRaise : (f : Failure) → IsRaise f (more_time (had_time f)).overrides
unfolding more_time
more_time-IsRaise f =
    elim (Bool-cases (leb (min ((had_time f * 3) / 2) timeout_cap) (had_time f))) [
      | inl e ↦ rw e tt
      | inr e ↦ rw e (ground arith, omega arith)
    ]

either :
    (f : Failure) (r s : StrategyResult) (c : Bool)
    → IsRaise f r.overrides
    → IsRaise f s.overrides
    → IsRaise f (if c then r else s).overrides
either f r s true p q = p
either f r s false p q = q

install-IsRaise :
    (f : Failure) (ns : List String) → length ns ≤ 10 → IsRaise f (install ns).overrides
install-IsRaise f [] h = tt
install-IsRaise f (s ∷ ss) h = h

repair-IsRaise :
    (f : Failure) (fix : Option (List (String × String))) → IsRaise f (repair fix).overrides
repair-IsRaise f none = tt
repair-IsRaise f (some files) = tt

select_for-IsRaise : (f : Failure) (c : FailureClass) → IsRaise f (select_for c f).overrides
unfolding select_for extract_missing_modules
select_for-IsRaise f metric_parse = tt
select_for-IsRaise f dependency =
    let names = extract_missing_modules f.missing_modules in
    either f broad_debug_result (install names) (needs_escalation f) tt
      (install-IsRaise f names (length-take-le 10 (without_repeats f.missing_modules)))
select_for-IsRaise f oom =
    either f broad_debug_result (more_memory (had_memory f)) (needs_escalation f) tt
      (more_memory-IsRaise f)
select_for-IsRaise f timeout =
    either f broad_debug_result (more_time (had_time f)) (needs_escalation f) tt
      (more_time-IsRaise f)
select_for-IsRaise f invalid_artifact =
    either f broad_debug_result (repair f.artifact_fix) (needs_escalation f) tt
      (repair-IsRaise f f.artifact_fix)
select_for-IsRaise f runtime = tt
select_for-IsRaise f (unknown s) = tt

select_for-IsEscalated : (f : Failure) (c : FailureClass) → IsEscalated f (select_for c f)
unfolding select_for
select_for-IsEscalated f metric_parse e = inr refl
select_for-IsEscalated f dependency e = inl (rw e refl)
select_for-IsEscalated f oom e = inl (rw e refl)
select_for-IsEscalated f timeout e = inl (rw e refl)
select_for-IsEscalated f invalid_artifact e = inl (rw e refl)
select_for-IsEscalated f runtime e = inl refl
select_for-IsEscalated f (unknown s) e = inr refl

-- A strategy that raises memory or time sets more than the failed run had and no more than the cap,
-- and one that installs packages installs ten at most; and after a focused attempt at the same
-- class of failure, the strategy is the broad one or the failure is not remediable.
pub select_strategy_lem :
    (f : Failure) → IsRaise f (select_strategy f).overrides × IsEscalated f (select_strategy f)
unfolding select_strategy
select_strategy_lem f =
    (select_for-IsRaise f f.failure_class, select_for-IsEscalated f f.failure_class)
