-- ===== src/Execution/Operators/Prepared.antt =====
-- The set-up of libs/execution/operators/setup.py follows the diagram of the stages, and what the
-- three operators share.
use Prim.Native.String.{String, ◌++◌ as joined}
use text.Mathlib.Text.{◌==◌ as str_eq}
use text.Mathlib.TextEquality.{eq_iff}
use mathlib.Core.Path.{subst}
use synthetos.Prelude.{
  sym, ap, ◌∙◌, inl, inr, true, false, ◌≡◌, refl, Option, none, some, List, [], ◌∷◌, if_cases,
  first_where, ◌≢◌, or_default,
}
use synthetos.Cycle.{verifying}
use synthetos.Remediation.Strategies.{FailureClass, dependency}
use synthetos.Execution.{
  ExecRun, ExecSpec, RunError, enqueue_next, ExecEvent, write_run, image_build_failed,
  worktree_commit_failed, empty_commit_sha, worktree_creation_failed, run_record, building, log,
  image_built, ExecDb, ExecInput, is_run,
}
use synthetos.Execution.Stages.{
  Cause, all_ready, something_missing, Stage, Leads, set_up, Fails, unprepared, prepared, IsStep,
  goes_on, fails, written-IsRowOf, enqueue_next-HandsOver,
}
use synthetos.Execution.Operators.Causes.{IsReady, IsMissing}
use synthetos.Execution.Operators.{
  SetupWorld, then_verify, give_up, of_image, of_commit, of_worktree, image_of, files_of,
  dockerfile_of, finish_setup, failed_run, limits_of, build_image,
}

module _ (why : Cause → Type 0) (i : ExecInput) (run : ExecRun) (db : ExecDb)
    (found : first_where (is_run run.id) db.runs ≡ some run) where
  -- The run and the tables that a stage has come to: those of the start, but for the run's own row
  -- and for what the run does not read.
  abbrev pub IsUnderway : ExecRun → ExecDb → Type 0
  IsUnderway run' mid =
      (run'.id ≡ run.id)
      × (run'.cycle_id ≡ run.cycle_id)
      × (mid.runs ≡ db.runs)
      × (mid.queue ≡ db.queue)

  pub give_up-IsStep :
      (stage : Stage) (run' : ExecRun) (class : FailureClass) (error : RunError) (mid : ExecDb)
      → IsUnderway run' mid
      → Fails why stage (some class)
      → IsStep why stage i run db (give_up i run' class error mid)
  give_up-IsStep stage run' class error mid (own, cycle, runs, queue) how =
      fails
        (written-IsRowOf run (failed_run run' class error i.now) db.runs mid.runs found runs own)
        refl how queue

  finish_setup-IsStep :
      (run' : ExecRun) (spec : ExecSpec) (image : String) (mid : ExecDb)
      → why all_ready
      → IsUnderway run' mid
      → run'.status ≡ building
      → IsStep why set_up i run db (finish_setup i run' spec image mid)
  unfolding finish_setup
  finish_setup-IsStep run' spec image mid ready (own, cycle, runs, queue) status =
      let row = record run' {
        image_ref = some image;
        command = some (joined "python " (or_default spec.entry_point "run_experiment.py"));
        resource_limits = some (limits_of spec run'.resource_limits);
      } in
      goes_on (written-IsRowOf run row db.runs mid.runs found runs own)
        (subst (λ s. Leads why set_up run.status s "execution_run" none) (sym status)
          (prepared ready))
        (enqueue_next-HandsOver i run db mid run'.cycle_id "execution_run" (run_record run'.id)
          cycle own queue)

  -- The set-up, with what its cause is.
  module _ (spec : ExecSpec) (world : SetupWorld) (ready : IsReady world i spec → why all_ready)
      (missing : IsMissing world i spec → why something_missing) where
    image-IsStep :
        (run' : ExecRun) (mid : ExecDb) (path sha : String) (o : Option String)
        → world.worktree ≡ some path
        → world.commit (files_of spec i.overrides) ≡ some sha
        → sha ≢ ""
        → dockerfile_of spec i.overrides ≢ []
        → world.image (dockerfile_of spec i.overrides) ≡ o
        → IsUnderway run' mid
        → run'.status ≡ building
        → IsStep why set_up i run db (of_image i run' spec o mid)
    unfolding of_image
    image-IsStep run' mid path sha none e e' ne lines built h status =
        give_up-IsStep set_up run' dependency image_build_failed mid h
          (unprepared (missing (inr (inr (inr (lines, built))))))
    image-IsStep run' mid path sha (some image) e e' ne lines built h status =
        finish_setup-IsStep run' spec image (log (image_built run'.id) mid)
          (ready (path, sha, e, e', ne, inr (image, built))) h status

    build_image-IsStep :
        (run' : ExecRun) (mid : ExecDb) (path sha : String) (lines : List String)
        → world.worktree ≡ some path
        → world.commit (files_of spec i.overrides) ≡ some sha
        → sha ≢ ""
        → dockerfile_of spec i.overrides ≡ lines
        → IsUnderway run' mid
        → run'.status ≡ building
        → IsStep why set_up i run db (build_image i run' spec world lines mid)
    unfolding build_image
    build_image-IsStep run' mid path sha [] e e' ne same h status =
        finish_setup-IsStep run' spec (image_of spec) mid (ready (path, sha, e, e', ne, inl same)) h
          status
    build_image-IsStep run' mid path sha (line ∷ lines) e e' ne same h status =
        image-IsStep run' mid path sha (world.image (line ∷ lines)) e e' ne
          (λ empty. nonempty line lines (sym same ∙ empty)) (ap world.image same) h status
      where
        nonempty : (l : String) (ls : List String) → (l ∷ ls) ≢ []
        nonempty l ls e = cc

    commit-IsStep :
        (run' : ExecRun) (path : String) (o : Option String)
        → world.worktree ≡ some path
        → world.commit (files_of spec i.overrides) ≡ o
        → IsUnderway run' db
        → IsStep why set_up i run db (of_commit i run' spec world o db)
    unfolding of_commit
    commit-IsStep run' path none e e' h =
        give_up-IsStep set_up run' dependency worktree_commit_failed db h
          (unprepared (missing (inr (inl e'))))
    commit-IsStep run' path (some sha) e e' h =
        if_cases (IsStep why set_up i run db) (str_eq sha "") _ _
          (λ empty.
            give_up-IsStep set_up run' dependency empty_commit_sha db h
              (unprepared (missing (inr (inr (inl (e' ∙ ap some ((eq_iff sha "").0 empty))))))))
          (λ full.
            build_image-IsStep (record run' { commit_sha = some sha; status = building }) db path
              sha (dockerfile_of spec i.overrides) e e'
              (λ same. false-true (sym full ∙ (eq_iff sha "").1 same)) refl h refl)
      where
        false-true : false ≢ true
        false-true e = cc

    pub worktree-IsStep :
        (run' : ExecRun) (o : Option String)
        → world.worktree ≡ o
        → IsUnderway run' db
        → IsStep why set_up i run db (of_worktree i run' spec world o db)
    unfolding of_worktree
    worktree-IsStep run' none e h =
        give_up-IsStep set_up run' dependency worktree_creation_failed db h
          (unprepared (missing (inl e)))
    worktree-IsStep run' (some path) e h =
        commit-IsStep (record run' { workspace_path = some path }) path
          (world.commit (files_of spec i.overrides)) e refl h

  pub verified :
      (stage : Stage) (run' row : ExecRun) (mid : ExecDb) (event : ExecEvent)
      → IsUnderway run' mid
      → row.id ≡ run.id
      → row.cycle_id ≡ run.cycle_id
      → Leads why stage run.status row.status "verification_check" (some verifying)
      → IsStep why stage i run db (then_verify i row (log event (write_run row mid)))
  unfolding enqueue_next
  verified stage run' row mid event (_, _, runs, queue) own cycle leads =
      goes_on (written-IsRowOf run row db.runs mid.runs found runs own) leads (
        enqueue_next-HandsOver i run db mid row.cycle_id "verification_check" (run_record row.id)
          cycle own queue)
