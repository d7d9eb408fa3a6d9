-- ===== src/Remediation/Strategies.antt =====
-- The choice of a remediation: libs/remediation/strategies.py. Reasons are left out. What the code
-- finds in texts is an argument: the top-level names of the missing modules in the error output, the
-- repair of an artifact's path, and a memory size by the form of its text.
pub mod Limits
use Prim.Native.String.{String}
use Prim.Native.Nat.{◌/◌}
use text.Mathlib.Text.{◌==◌ as str_eq}
use synthetos.Prelude.{
  ℕ, ◌+◌, ◌*◌, leb, min, max, Bool, true, false, ◌&&◌, not, Option, none, some, List, [], ◌∷◌,
  if◌then◌else◌, any_of, take, or_default, select,
}

pub data FailureClass : Type 0 where
  metric_parse dependency oom timeout invalid_artifact runtime : FailureClass
  unknown : String → FailureClass

abbrev pub class_text : FailureClass → String
class_text metric_parse = "metric_parse"
class_text dependency = "dependency"
class_text oom = "oom"
class_text timeout = "timeout"
class_text invalid_artifact = "invalid_artifact"
class_text runtime = "runtime"
class_text (unknown s) = s

pub data Strategy : Type 0 where
  skip install_deps increase_memory extend_timeout repair_artifact_path debug_broad : Strategy

pub data Tier : Type 0 where
  focused broad : Tier

-- The overrides of a strategy.
pub data Overrides : Type 0 where
  no_overrides : Overrides
  extra_pip_packages : List String → Overrides
  memory_gb : ℕ → Overrides
  timeout_s : ℕ → Overrides
  patched_files : List (String × String) → Overrides

pub record StrategyResult : Type 0 where
  pub strategy : Strategy
  pub strategy_tier : Tier
  pub remediable : Bool
  pub overrides : Overrides

-- "16g", "512m", "16", and a text that is no number.
pub data Memory : Type 0 where
  gigabytes megabytes bare : ℕ → Memory
  unreadable : Memory

pub record Attempt : Type 0 where
  pub strategy : Strategy
  pub failure_class : FailureClass

pub record Failure : Type 0 where
  pub failure_class : FailureClass
  pub missing_modules : List String
  pub memory : Option Memory
  pub timeout : Option ℕ
  pub prior : List Attempt
  pub artifact_fix : Option (List (String × String))

abbrev pub memory_cap : ℕ
memory_cap = 64

abbrev pub timeout_cap : ℕ
timeout_cap = 14400

abbrev pub parse_memory : Memory → ℕ
parse_memory (gigabytes n) = n
parse_memory (megabytes n) = max 1 (n / 1024)
parse_memory (bare n) = n
parse_memory unreadable = 16

abbrev pub skip_result : StrategyResult
skip_result = record {
  strategy = skip;
  strategy_tier = focused;
  remediable = false;
  overrides = no_overrides;
}

abbrev pub broad_debug_result : StrategyResult
broad_debug_result = record {
  strategy = debug_broad;
  strategy_tier = broad;
  remediable = true;
  overrides = no_overrides;
}

abbrev pub focused_result : Strategy → Overrides → StrategyResult
focused_result strategy overrides = record {
  strategy = strategy;
  strategy_tier = focused;
  remediable = true;
  overrides = overrides;
}

abbrev pub is_broad : Strategy → Bool
is_broad debug_broad = true
is_broad _ = false

-- A focused attempt at the same class.
abbrev pub is_same_class : FailureClass → Attempt → Bool
is_same_class c a = str_eq (class_text a.failure_class) (class_text c) && not (is_broad a.strategy)

abbrev pub needs_escalation : Failure → Bool
needs_escalation f = any_of (is_same_class f.failure_class) f.prior

abbrev is_name : String → String → Bool
is_name a b = str_eq b a

-- `list(dict.fromkeys(names))[:10]`
unfoldable pub without_repeats : List String → List String
without_repeats [] = []
without_repeats (s ∷ ss) = s ∷ select (λ t. not (is_name s t)) (without_repeats ss)

unfoldable pub extract_missing_modules : List String → List String
unfolding without_repeats
extract_missing_modules names = take 10 (without_repeats names)

abbrev pub install : List String → StrategyResult
install [] = broad_debug_result
install (s ∷ ss) = focused_result install_deps (extra_pip_packages (s ∷ ss))

unfoldable pub more_memory : ℕ → StrategyResult
more_memory current =
    let new = min (current * 2) memory_cap in
    if leb new current then skip_result else focused_result increase_memory (memory_gb new)

-- `int(current * 1.5)`
unfoldable pub more_time : ℕ → StrategyResult
more_time current =
    let new = min ((current * 3) / 2) timeout_cap in
    if leb new current then skip_result else focused_result extend_timeout (timeout_s new)

abbrev pub repair : Option (List (String × String)) → StrategyResult
repair none = broad_debug_result
repair (some files) = focused_result repair_artifact_path (patched_files files)

unfoldable pub select_for : FailureClass → Failure → StrategyResult
unfolding extract_missing_modules more_memory more_time
select_for metric_parse f = skip_result
select_for dependency f =
    if needs_escalation f
    then broad_debug_result
    else install (extract_missing_modules f.missing_modules)
select_for oom f =
    if needs_escalation f
    then broad_debug_result
    else more_memory (parse_memory (or_default f.memory (gigabytes 16)))
select_for FailureClass.timeout f =
    if needs_escalation f then broad_debug_result else more_time (or_default f.timeout 3600)
select_for invalid_artifact f =
    if needs_escalation f then broad_debug_result else repair f.artifact_fix
select_for runtime f = broad_debug_result
select_for (unknown s) f = skip_result

unfoldable pub select_strategy : Failure → StrategyResult
unfolding select_for
select_strategy f = select_for f.failure_class f
