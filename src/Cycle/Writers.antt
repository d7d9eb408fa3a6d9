-- ===== src/Cycle/Writers.antt =====
-- What holds of the cycles and of the event log after any number of changes of status, by
-- `transition_cycle` and by the worker's `apply_state_patch`.
use Prim.Native.String.{String}
use synthetos.Prelude.{ℕ, ◌≡◌, refl, Option, none, some, Option-cases, inl, inr, List, ◌⊎◌}
use synthetos.Cycle.{
  CycleStatus, StatusError, worker, ok, err, status_value, ResearchCycle, ActorType, Store,
  StatePatch, Result, get_cycle, validate_transition, write_move, transition_cycle,
  apply_state_patch, ◌>>◌, patch_cycle, patch_target, raw_target, parse_status, no_cycle,
}
use synthetos.Cycle.Reach.{parse_status_iff}
use synthetos.Cycle.Logged.{IsLogged, status_value-nonempty, Keeps, write_move-IsLogged}

guarded :
    (ids : List ℕ) (r : Result (Unit {0})) (s : Store)
    → (r ≡ ok tt → IsLogged ids s)
    → Keeps ids (r >> ok s)
guarded ids (ok _) s h = h refl
guarded ids (err _) s h = tt

-- The service keeps the times and the log right, whatever the request.
pub transition_cycle-IsLogged :
    (ids : List ℕ) (i : ℕ) (target : CycleStatus) (actor : ActorType) (now later : ℕ) (s : Store)
    → IsLogged ids s
    → Keeps ids (transition_cycle i target actor now later s)
unfolding transition_cycle
transition_cycle-IsLogged ids i target actor now later s h = elim (Option-cases (get_cycle i s)) [
  | inl none_found ↦ rw none_found tt
  | inr (c, found) ↦ rw found (
      guarded ids (validate_transition c.status target)
        (write_move c target actor c.charter_id now later s)
        λ allowed.
          write_move-IsLogged ids i c target actor c.charter_id now later s found allowed h)
]

patch_cycle-IsLogged :
    (ids : List ℕ) (i : ℕ) (c : ResearchCycle) (raw : String) (charter : Option ℕ) (now : ℕ)
    (s : Store)
    → get_cycle i s ≡ some c
    → IsLogged ids s
    → Keeps ids (patch_cycle c raw charter now s)
unfolding patch_cycle
patch_cycle-IsLogged ids i c raw charter now s found h = elim (Option-cases (parse_status raw)) [
  | inl bad ↦ rw bad tt
  | inr (target, good) ↦ rw good (
      guarded ids (validate_transition c.status target) _
        λ allowed. write_move-IsLogged ids i c target worker _ now now s found allowed h)
]

patch_target-IsLogged :
    (ids : List ℕ) (i : ℕ) (charter : Option ℕ) (now : ℕ) (s : Store) (raw : Option String)
    → IsLogged ids s
    → Keeps ids (patch_target i charter now s raw)
unfolding patch_target
patch_target-IsLogged ids i charter now s none h = h
patch_target-IsLogged ids i charter now s (some raw) h = elim (Option-cases (get_cycle i s)) [
  | inl absent ↦ rw (absent, Keeps, patch_target) h
  | inr (c, found) ↦
      rw (found, Keeps, patch_target) (patch_cycle-IsLogged ids i c raw charter now s found h)
]

-- The worker's patches do as well.
pub apply_state_patch-IsLogged :
    (ids : List ℕ) (i charter : Option ℕ) (patch : StatePatch) (now : ℕ) (s : Store)
    → IsLogged ids s
    → Keeps ids (apply_state_patch i charter patch now s)
unfolding apply_state_patch
apply_state_patch-IsLogged ids none charter patch now s h = h
apply_state_patch-IsLogged ids (some i) charter patch now s h =
    patch_target-IsLogged ids i charter now s (raw_target patch) h

-- The charter that the worker passes: none, or that of the row.
abbrev pub IsResolved : Option ℕ → Option ResearchCycle → Type 0
IsResolved charter none = charter ≡ none
IsResolved charter (some c) = (charter ≡ none) ⊎ (charter ≡ some c.charter_id)

-- A patch with the text of a status, and with no charter or that of the row, does to a row that is
-- there what the service does for the worker with that status. For a row that is not there the patch
-- changes nothing, and the service raises.
pub apply_state_patch-eq-transition_cycle :
    (i : ℕ) (charter : Option ℕ) (target : CycleStatus) (now : ℕ) (s : Store)
    → IsResolved charter (get_cycle i s)
    → let patched =
        apply_state_patch
          (some i)
          charter
          (record { cycle_status = some (status_value target); target_status = none })
          now
          s in
      let served = transition_cycle i target worker now now s in
      ((c : ResearchCycle) × (get_cycle i s ≡ some c) × (patched ≡ served))
      ⊎ ((get_cycle i s ≡ none) × (patched ≡ ok s) × (served ≡ err no_cycle))
unfolding apply_state_patch patch_target patch_cycle transition_cycle
apply_state_patch-eq-transition_cycle i charter target now s h =
    elim (Option-cases (get_cycle i s)) [
      | inl absent ↦ inr (
        absent,
        rw (status_value-nonempty target) (rw (absent, patch_target) refl),
        rw absent refl,
      )
      | inr (c, found) ↦ inl (
        c,
        found,
        rw (status_value-nonempty target) (elim (rw found at h) [
          | inl e ↦
              rw
                (
                  found,
                  (parse_status_iff (status_value target) target).1 refl,
                  patch_target,
                  patch_cycle,
                  e,
                )
                refl
          | inr e ↦
              rw
                (
                  found,
                  (parse_status_iff (status_value target) target).1 refl,
                  patch_target,
                  patch_cycle,
                  e,
                )
                refl
        ]),
      )
    ]

-- A patch with the text of a status that the row must not take is refused.
pub apply_state_patch-refused :
    (i : ℕ) (charter : Option ℕ) (c : ResearchCycle) (target : CycleStatus) (now : ℕ) (s : Store)
    (e : StatusError)
    → get_cycle i s ≡ some c
    → validate_transition c.status target ≡ err e
    → apply_state_patch
        (some i)
        charter
        (record { cycle_status = some (status_value target); target_status = none })
        now
        s
      ≡ err e
unfolding apply_state_patch patch_target patch_cycle
apply_state_patch-refused i charter c target now s e found no_arrow =
    rw (status_value-nonempty target) (
      rw
        (
          found,
          (parse_status_iff (status_value target) target).1 refl,
          patch_target,
          patch_cycle,
          no_arrow,
        )
        refl)

-- A patch that names no status changes nothing.
pub apply_state_patch-idle :
    (cycle charter : Option ℕ) (patch : StatePatch) (now : ℕ) (s : Store)
    → raw_target patch ≡ none
    → apply_state_patch cycle charter patch now s ≡ ok s
unfolding apply_state_patch
apply_state_patch-idle none charter patch now s h = refl
apply_state_patch-idle (some c) charter patch now s h = rw h refl
