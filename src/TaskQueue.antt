-- ===== src/TaskQueue.antt =====
-- packages/federation/src/task-queue.ts: the bounded in-memory queue of key prewarming tasks, with
-- its one listener. The asynchronous loop of `listen` is a state machine: `Phase` says at which
-- `await` the loop stands, and each event runs it up to the next one. A message is any value.
pub mod Laws
pub mod Ledger
pub mod Order
mod Examples
use drfed.Common.{
  ℕ, ◌+◌, ◌-◌, ◌^◌, Bool, true, false, not, ◌&&◌, ◌||◌, Option, none, some, List, [], ◌∷◌, ◌++◌,
  ltb, length, if◌then◌else◌,
}
use drfed.Common.Result.{Result, ok, err}

pub data QueueError : Type 0 where
  invalid_capacity delayed_message restarted : QueueError

-- The sign of `Temporal.Duration.from(options.delay)`.
pub data Sign : Type 0 where
  negative zero_length positive : Sign

abbrev pub max_safe_integer : ℕ
max_safe_integer = 2 ^ 53 - 1

module _ {ℓ} where
  -- The private fields. `wake` says whether a waiter is registered in `#wake`.
  pub record Queue (M : Type ℓ) : Type ℓ where
    pub messages : List M
    pub wake : Bool
    pub closed : Bool
    pub listening : Bool
    pub dropped : ℕ
    pub capacity : ℕ

  -- Where `listen` stands: not called, at `await wake.promise` (resolved or not), at
  -- `await handler(message)`, or returned.
  pub data Phase (M : Type ℓ) : Type ℓ where
    idle : Phase M
    waiting : Bool → Phase M
    handling : M → Phase M
    ended : Phase M

  -- The queue with its listener, the listener's abort signal, and the messages handed to the
  -- handler so far.
  pub record System (M : Type ℓ) : Type ℓ where
    pub queue : Queue M
    pub phase : Phase M
    pub aborted : Bool
    pub handed : List M

  -- What the event loop can do next: a call of `enqueueMany`, a call of `listen`, the signal's
  -- abort, the continuation of a resolved wait, the handler's return or throw.
  pub data Event (M : Type ℓ) : Type ℓ where
    enqueue_many : List M → Option Sign → Event M
    listen : Event M
    abort : Event M
    resume : Event M
    settle : Event M

abbrev pub is_delayed : Option Sign → Bool
is_delayed none = false
is_delayed (some zero_length) = false
is_delayed (some _) = true

module _ {ℓ} {M : Type ℓ} where
  -- The constructor.
  pub new_queue : ℕ → Result QueueError (Queue M)
  new_queue capacity =
      if ltb max_safe_integer capacity || ltb capacity 1
      then err invalid_capacity
      else ok (record {
        messages = [];
        wake = false;
        closed = false;
        listening = false;
        dropped = 0;
        capacity = capacity;
      })

  -- `enqueueMany` after its check of the delay.
  pub admit : Queue M → List M → Queue M
  admit q ms =
      if q.closed || ltb q.capacity (length q.messages + length ms)
      then record q { dropped = q.dropped + length ms }
      else record q { messages = q.messages ++ ms }

  -- Whether `enqueueMany` takes the messages in, and so calls `#wake`.
  abbrev pub admits : Queue M → List M → Bool
  admits q ms = not (q.closed || ltb q.capacity (length q.messages + length ms))

  pub wake_up : Phase M → Phase M
  wake_up (waiting _) = waiting true
  wake_up p = p

  -- The `finally` block of `listen`.
  pub shut_down : System M → System M
  shut_down s = record s {
    queue = record s.queue {
      closed = true;
      dropped = s.queue.dropped + length s.queue.messages;
      messages = [];
      wake = false;
    };
    phase = ended;
  }

  -- The body of the loop, on the messages that the queue holds.
  pub take_next : List M → System M → System M
  take_next [] s = record s { queue = record s.queue { wake = true }; phase = waiting false }
  take_next (m ∷ rest) s = record s {
    queue = record s.queue { messages = rest };
    phase = handling m;
    handed = s.handed ++ m ∷ [];
  }

  -- One round of `while (!signal?.aborted)`, up to its next `await`.
  pub next_round : System M → System M
  unfolding shut_down take_next
  next_round s = if s.aborted then shut_down s else take_next s.queue.messages s

  pub on_enqueue : System M → List M → Bool → System M × Option QueueError
  unfolding admit wake_up
  on_enqueue s ms true = (s, some delayed_message)
  on_enqueue s ms false = (
    record s {
      queue = admit s.queue ms;
      phase = if admits s.queue ms && s.queue.wake then wake_up s.phase else s.phase;
    },
    none,
  )

  pub on_listen : System M → System M × Option QueueError
  on_listen s =
      if s.queue.listening || s.queue.closed
      then (s, some restarted)
      else (next_round (record s { queue = record s.queue { listening = true } }), none)

  -- The wait is over: its `finally` clears `#wake`, and the loop goes on.
  pub on_resume : Phase M → System M → System M
  on_resume (waiting true) s = next_round (record s { queue = record s.queue { wake = false } })
  on_resume p s = s

  pub on_settle : Phase M → System M → System M
  on_settle (handling m) s = next_round s
  on_settle p s = s

  pub step : System M → Event M → System M × Option QueueError
  unfolding wake_up
  step s (enqueue_many ms delay) = on_enqueue s ms (is_delayed delay)
  step s listen = on_listen s
  step s abort = (record s { aborted = true; phase = wake_up s.phase }, none)
  step s resume = (on_resume s.phase s, none)
  step s settle = (on_settle s.phase s, none)

  pub run : System M → List (Event M) → System M
  run s [] = s
  run s (e ∷ es) = run (step s e).0 es

  abbrev pub start : Queue M → System M
  start q = record { queue = q; phase = idle; aborted = false; handed = [] }
