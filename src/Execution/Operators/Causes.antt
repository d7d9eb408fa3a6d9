-- ===== src/Execution/Operators/Causes.antt =====
-- What the answers of the operators of libs/execution/operators depend on: what git, Docker and the
-- file system answer, how the container ended, and what the metrics file says.
use Prim.Native.String.{String}
use synthetos.Prelude.{
  ◌==◌, ==→eq, ◌≡◌, refl, ap, ◌≢◌, ◌⊎◌, inl, inr, Bool, true, false, ◌||◌, not, Option, none, some,
  List, [], ◌∷◌, is_some,
}
use synthetos.Prelude.Int.{ℤ, pos, negsuc}
use synthetos.Execution.Metrics.{MetricError, ParsedMetrics, parse_metrics, is_ok}
use synthetos.Execution.{ExecRun, ExecSpec, ExecInput}
use synthetos.Execution.Operators.{
  SetupWorld, files_of, dockerfile_of, RunWorld, RunOutcome, Terminal, is_code, CaptureWorld,
}

-- There is a worktree, a commit with a hash, and an image if one is to be built.
abbrev pub IsReady : SetupWorld → ExecInput → ExecSpec → Type 0
IsReady w i spec =
    (path : String) × (sha : String) × (w.worktree ≡ some path)
    × (w.commit (files_of spec i.overrides) ≡ some sha)
    × (sha ≢ "")
    × ((dockerfile_of spec i.overrides ≡ [])
        ⊎ ((image : String) × (w.image (dockerfile_of spec i.overrides) ≡ some image)))

-- One of them is missing.
abbrev pub IsMissing : SetupWorld → ExecInput → ExecSpec → Type 0
IsMissing w i spec =
    (w.worktree ≡ none)
    ⊎ ((w.commit (files_of spec i.overrides) ≡ none)
        ⊎ ((w.commit (files_of spec i.overrides) ≡ some "")
            ⊎ ((dockerfile_of spec i.overrides ≢ [])
                × (w.image (dockerfile_of spec i.overrides) ≡ none))))

abbrev pub HasNoWorkspace : RunWorld → ExecRun → Type 0
HasNoWorkspace w run = (run.workspace_path ≡ none) ⊎ (w.workspace_exists ≡ false)

abbrev pub HasWorkspace : RunWorld → ExecRun → Type 0
HasWorkspace w run =
    ((path : String) × (run.workspace_path ≡ some path)) × (w.workspace_exists ≡ true)

-- The container has raised, or has ended in a way and with an exit code.
abbrev pub HasRaised : RunWorld → ExecRun → Type 0
HasRaised w run = HasWorkspace w run × (w.outcome ≡ none)

abbrev pub HasEnded : RunWorld → ExecRun → Terminal → (ℤ → Type 0) → Type 0
HasEnded w run terminal code =
    HasWorkspace w run
    × ((o : RunOutcome) × (w.outcome ≡ some o) × (o.terminal_state ≡ terminal) × code o.exit_code)

abbrev pub HasMetrics : CaptureWorld → ExecSpec → Type 0
HasMetrics w spec =
    (p : ParsedMetrics) × (parse_metrics w.metrics spec.metrics ≡ some p) × (p.errors ≡ [])

abbrev pub HasErrors : CaptureWorld → ExecSpec → Type 0
HasErrors w spec =
    (p : ParsedMetrics) × (parse_metrics w.metrics spec.metrics ≡ some p) × (p.errors ≢ [])

-- The tests of the code for them.
pub workspace_there :
    (o : Option String) (b : Bool)
    → (not (is_some o) || not b) ≡ false
    → ((path : String) × (o ≡ some path)) × (b ≡ true)
workspace_there none b h = cc
workspace_there (some path) true h = ((path, refl), refl)
workspace_there (some path) false h = cc

pub workspace_gone :
    (o : Option String) (b : Bool) → (not (is_some o) || not b) ≡ true → (o ≡ none) ⊎ (b ≡ false)
workspace_gone none b h = inl refl
workspace_gone (some path) true h = cc
workspace_gone (some path) false h = inr refl

pub code_zero : (code : ℤ) → not (is_code 0 code) ≡ false → code ≡ pos 0
code_zero (pos n) h = ap pos (==→eq n 0 (kept (n == 0) h))
  where
    kept : (b : Bool) → not b ≡ false → b ≡ true
    kept true e = refl
    kept false e = cc
code_zero (negsuc n) h = cc

pub code_other : (code : ℤ) → not (is_code 0 code) ≡ true → code ≢ pos 0
code_other code h e = cc (h, e)

pub errors_none : (p : ParsedMetrics) → is_ok p ≡ true → p.errors ≡ []
errors_none p h = go p.errors h
  where
    go : (es : List MetricError) → (elim es [ [] ↦ true | ◌∷◌ _ _ ↦ false ]) ≡ true → es ≡ []
    go [] e = refl
    go (x ∷ xs) e = cc

pub errors_some : (p : ParsedMetrics) → is_ok p ≡ false → p.errors ≢ []
errors_some p h e = cc (rw e at h)
