-- ===== src/TaskQueue/Examples.antt =====
-- The task queue on short runs.
use drfed.Common.{ℕ, ◌+◌, ◌≡◌, refl, true, false, none, some, List, [], ◌∷◌, ◌++◌, arith}
use drfed.Common.Result.{ok}
use drfed.TaskQueue.{
  Queue, waiting, handling, System, Event, enqueue_many, listen, abort, resume, settle, positive,
  new_queue, take_next, next_round, shut_down, on_enqueue, on_listen, on_resume, on_settle, step,
  run, start,
}
use drfed.TaskQueue.Laws.{Inv, step-Inv, run-Inv}
use drfed.TaskQueue.Ledger.{accounted, taken_in, accounted-run}
use drfed.TaskQueue.Order.{pipeline, handed-IsFirst, settle-drains, resume-hands_first}

abbrev small : Queue ℕ
small = record {
  messages = [];
  wake = false;
  closed = false;
  listening = false;
  dropped = 0;
  capacity = 2;
}

new_queue-small : new_queue {M = ℕ} 2 ≡ ok small
unfolding new_queue
new_queue-small = refl

abbrev script : List (Event ℕ)
script =
    listen
    ∷ enqueue_many (1 ∷ 2 ∷ []) none
    ∷ resume
    ∷ enqueue_many (3 ∷ 4 ∷ []) none
    ∷ enqueue_many (5 ∷ []) none
    ∷ enqueue_many (6 ∷ []) (some positive)
    ∷ settle
    ∷ abort
    ∷ settle
    ∷ []

script_ends :
    let s = run (start small) script in
    (s.handed ≡ 1 ∷ 2 ∷ []) × (s.queue.dropped ≡ 3) × (s.queue.closed ≡ true)
unfolding run step on_enqueue on_listen on_resume on_settle next_round take_next shut_down
script_ends = (refl, refl, refl)

-- The handler at work on 1, with 2 waiting.
abbrev busy : System ℕ
busy = record {
  queue = record small { messages = 2 ∷ []; listening = true };
  phase = handling 1;
  aborted = false;
  handed = 1 ∷ [];
}

-- The listener about to wake up to message 7.
abbrev woken : System ℕ
woken = record {
  queue = record small { messages = 7 ∷ []; listening = true; wake = true };
  phase = waiting true;
  aborted = false;
  handed = [];
}

start-Inv : Inv (start small)
start-Inv = ground arith

run-Inv_example : Inv (run (start small) script)
run-Inv_example = run-Inv script (start small) start-Inv

accounted-run_example : accounted (run (start small) script) ≡ accounted (start small) + 5
accounted-run_example = accounted-run script (start small)

handed-IsFirst_example :
    (rest : List ℕ) × ((run (start small) script).handed ++ rest
      ≡ pipeline (start small) ++ taken_in (start small) script)
handed-IsFirst_example = handed-IsFirst script (start small)

settle-drains_example : (run busy (settle ∷ [])).handed ≡ 1 ∷ 2 ∷ []
settle-drains_example = settle-drains (2 ∷ []) 1 busy refl refl refl

woken-Inv : Inv woken
woken-Inv = ground arith

resume-hands_first_example :
    ((step woken resume).0.handed ≡ 7 ∷ []) × ((step woken resume).0.queue.messages ≡ [])
resume-hands_first_example = resume-hands_first woken true 7 [] woken-Inv refl refl refl

step-Inv_example : Inv (step woken abort).0
step-Inv_example = step-Inv woken abort woken-Inv
