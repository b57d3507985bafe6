-- ===== src/Background.antt =====
-- The lists of tasks of starlette/background.py. A task is a function on the state of the program, in
-- a thread or not.
use starlette.Prelude.{List, [], ◌∷◌, ◌++◌, ◌≡◌, refl, arith}
use starlette.Websockets.{Call, done, raised, blocked}

-- a task, on the state of the program
abbrev Task : Type 0 → Type 0
Task S = S → Call (Unit {0}) × S

-- `BackgroundTasks.add_task`
unfoldable add_task : {S : Type 0} → List (Task S) → Task S → List (Task S)
add_task tasks task = tasks ++ task ∷ []

-- `BackgroundTasks.__call__`
unfoldable run_tasks : {S : Type 0} → List (Task S) → Task S
run_tasks [] s = (done tt, s)
run_tasks (task ∷ tasks) s =
    let (r, s') = task s in
    let rest = run_tasks tasks s' in
    elim r [ raised exc ↦ (raised exc, s') | blocked ↦ (blocked, s') | done u ↦ rest ]

-- the tasks of the first list, then those of the second one where these went well
run_tasks-append :
    {S : Type 0} (tasks more : List (Task S)) (s : S)
    → run_tasks (tasks ++ more) s ≡ (
        let (r, s') = run_tasks tasks s in
        elim r [
          | raised exc ↦ (raised exc, s')
          | blocked ↦ (blocked, s')
          | done u ↦ run_tasks more s'
        ])
unfolding run_tasks
run_tasks-append [] more s = refl
run_tasks-append (task ∷ tasks) more s = ground (arith, run_tasks-append tasks more (task s).1)
