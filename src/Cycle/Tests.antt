-- ===== src/Cycle/Tests.antt =====
-- The cycle's theorems at concrete tables.
use synthetos.Prelude.{◌≡◌, refl, none, some, [], ◌∷◌, ◌⊎◌, inr, arith, update_where}
use synthetos.Cycle.{
  created, discovery_ready, discovery_screened, closed, user, worker, ok, err, invalid_transition,
  Store, status_value, validate_transition, transition_cycle, apply_state_patch, create_cycle,
  get_cycle, write_move, ResearchCycle, has_id, no_cycle,
}
use synthetos.Cycle.Writers.{apply_state_patch-eq-transition_cycle}
use synthetos.Cycle.Logged.{IsLogged}
use synthetos.Cycle.History.{empty, start, next, create, transition, overwrite, History-IsLogged}

abbrev first_cycle : Store
first_cycle = create_cycle 7 1 100 empty

-- A new cycle cannot be closed at once.
no_shortcut :
    transition_cycle 7 closed user 5 6 first_cycle ≡ err (invalid_transition created closed)
unfolding transition_cycle validate_transition get_cycle create_cycle
no_shortcut = refl

abbrev ready : Store
ready = record {
  cycles =
      record {
        id = 7;
        charter_id = 1;
        status = discovery_ready;
        started_at = some 102;
        completed_at = none;
        updated_at = 101;
      }
      ∷ [];
  events =
      record {
        charter_id = 1;
        cycle_id = 7;
        from_status = created;
        to_status = discovery_ready;
        actor_type = user;
      }
      ∷ [];
}

becomes_ready : transition_cycle 7 discovery_ready user 101 102 first_cycle ≡ ok ready
unfolding transition_cycle validate_transition get_cycle create_cycle write_move
becomes_ready = refl

-- A second cycle, which other code closes.
abbrev with_second : Store
with_second = create_cycle 8 1 104 ready

abbrev close : ResearchCycle → ResearchCycle
close c = record c { status = closed }

History-IsLogged_example :
    IsLogged
      (8 ∷ [])
      (record with_second { cycles = update_where (has_id 8) close with_second.cycles })
History-IsLogged_example = History-IsLogged (
    next
      (next
        (next (next start (create 7 1 100 tt))
          (transition 7 discovery_ready user 101 102 becomes_ready))
        (create 8 1 104 ((λ e. omega (arith, e)), tt)))
      (overwrite 8 close (λ c. refl)))

apply_state_patch-eq-transition_cycle_example :
    let patched =
      apply_state_patch
        (some 7)
        (some 1)
        (record { cycle_status = some (status_value discovery_screened); target_status = none })
        103
        ready in
    let served = transition_cycle 7 discovery_screened worker 103 103 ready in
    ((c : ResearchCycle) × (get_cycle 7 ready ≡ some c) × (patched ≡ served))
    ⊎ ((get_cycle 7 ready ≡ none) × (patched ≡ ok ready) × (served ≡ err no_cycle))
unfolding get_cycle
apply_state_patch-eq-transition_cycle_example =
    apply_state_patch-eq-transition_cycle 7 (some 1) discovery_screened 103 ready (inr refl)
