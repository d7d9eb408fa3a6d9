-- ===== src/Cycle/Reach.antt =====
-- The transition table of libs/core/state_machine.py against an independent picture of it.
use Prim.Native.String.{String}
use text.Mathlib.TextEquality.{eq_iff}
use text.Mathlib.Text.{◌==◌ as str_eq}
use synthetos.Prelude.{ℕ, ◌≤◌, ◌≡◌, refl, ◌↔◌, some, arith, ap, true, first_where-passes}
use synthetos.Cycle.{
  CycleStatus, created, discovery_ready, discovery_screened, analysis_ready, evidence_ready,
  portfolio_ready, protocol_ready, running, verifying, loop_deciding, reporting, closed, ok,
  all_statuses, status_value, parse_status, same_status, validate_transition,
}

-- The documented life of a cycle: one arrow for each move.
infix 40 ◌⟶◌ ◌⟶*◌
pub data ◌⟶◌ : CycleStatus → CycleStatus → Type 0 where
  prepare : created ⟶ discovery_ready
  screen : discovery_ready ⟶ discovery_screened
  analyse : discovery_screened ⟶ analysis_ready
  analyse_again : analysis_ready ⟶ analysis_ready
  extract : analysis_ready ⟶ evidence_ready
  ideate : evidence_ready ⟶ portfolio_ready
  compile : portfolio_ready ⟶ protocol_ready
  execute : protocol_ready ⟶ running
  verify : running ⟶ verifying
  rerun : running ⟶ running
  retry : verifying ⟶ running
  decide : verifying ⟶ loop_deciding
  conclude : verifying ⟶ reporting
  go_on : loop_deciding ⟶ running
  stop : loop_deciding ⟶ reporting
  close : reporting ⟶ closed

pub data ◌⟶*◌ : CycleStatus → CycleStatus → Type 0 where
  here : {s : CycleStatus} → s ⟶* s
  then : {s t u : CycleStatus} → s ⟶ t → t ⟶* u → s ⟶* u

pub ruleset arrows = (
  prepare, screen, analyse, extract, ideate, compile, execute, verify, decide, conclude, stop,
  close,
)

allowed-arrow : (a b : CycleStatus) → validate_transition a b ≡ ok tt → a ⟶ b
unfolding validate_transition
allowed-arrow created discovery_ready h = prepare
allowed-arrow discovery_ready discovery_screened h = screen
allowed-arrow discovery_screened analysis_ready h = analyse
allowed-arrow analysis_ready analysis_ready h = analyse_again
allowed-arrow analysis_ready evidence_ready h = extract
allowed-arrow evidence_ready portfolio_ready h = ideate
allowed-arrow portfolio_ready protocol_ready h = compile
allowed-arrow protocol_ready running h = execute
allowed-arrow running verifying h = verify
allowed-arrow running running h = rerun
allowed-arrow verifying running h = retry
allowed-arrow verifying loop_deciding h = decide
allowed-arrow verifying reporting h = conclude
allowed-arrow loop_deciding running h = go_on
allowed-arrow loop_deciding reporting h = stop
allowed-arrow reporting closed h = close
allowed-arrow _ _ h = cc

arrow-allowed : {a b : CycleStatus} → a ⟶ b → validate_transition a b ≡ ok tt
unfolding validate_transition
arrow-allowed prepare = refl
arrow-allowed screen = refl
arrow-allowed analyse = refl
arrow-allowed analyse_again = refl
arrow-allowed extract = refl
arrow-allowed ideate = refl
arrow-allowed compile = refl
arrow-allowed execute = refl
arrow-allowed verify = refl
arrow-allowed rerun = refl
arrow-allowed retry = refl
arrow-allowed decide = refl
arrow-allowed conclude = refl
arrow-allowed go_on = refl
arrow-allowed stop = refl
arrow-allowed close = refl

-- The validator accepts a move exactly when the picture has an arrow for it.
pub validate_transition-iff-arrow :
    (a b : CycleStatus) → (validate_transition a b ≡ ok tt) ↔ (a ⟶ b)
validate_transition-iff-arrow a b = (allowed-arrow a b, arrow-allowed)

parse_status-status_value : (s : CycleStatus) → parse_status (status_value s) ≡ some s
unfolding parse_status
parse_status-status_value created = refl
parse_status-status_value _ = refl

-- The text of a status reads back as that status, and no other text reads as one.
pub parse_status_iff :
    (raw : String) (s : CycleStatus) → (parse_status raw ≡ some s) ↔ (status_value s ≡ raw)
unfolding parse_status
parse_status_iff raw s = (
  (λ h. (eq_iff _ _).0 (first_where-passes (λ t. str_eq (status_value t) raw) all_statuses h)),
  (λ e. rw (← e) (parse_status-status_value s)),
)

-- Two statuses are the same for the validator only if they are equal.
pub same_status→eq : (a b : CycleStatus) → same_status a b ≡ true → a ≡ b
unfolding same_status
same_status→eq a b h = cc (
  parse_status-status_value a,
  ap parse_status ((eq_iff (status_value a) (status_value b)).0 h),
  parse_status-status_value b,
)

-- From every status there is a way to `closed`.
pub ⟶*-closed : (s : CycleStatus) → s ⟶* closed
⟶*-closed closed = here
⟶*-closed _ = search (here, then, arrows) depth 12

-- Every status is reached from `created`.
pub created-⟶* : (s : CycleStatus) → created ⟶* s
created-⟶* created = here
created-⟶* _ = search (here, then, arrows) depth 12

-- The three statuses of the experiment loop share a phase.
abbrev pub phase : CycleStatus → ℕ
phase created = 0
phase discovery_ready = 1
phase discovery_screened = 2
phase analysis_ready = 3
phase evidence_ready = 4
phase portfolio_ready = 5
phase protocol_ready = 6
phase running = 7
phase verifying = 7
phase loop_deciding = 7
phase reporting = 8
phase closed = 9

phase-⟶ : {a b : CycleStatus} → a ⟶ b → phase a ≤ phase b
phase-⟶ retry = omega arith
phase-⟶ _ = omega arith

-- A cycle never falls back to an earlier phase: only the loop's own statuses repeat.
pub phase-⟶* : {a b : CycleStatus} → a ⟶* b → phase a ≤ phase b
phase-⟶* here = omega arith
phase-⟶* (then step rest) = omega (arith, phase-⟶ step, phase-⟶* rest)
