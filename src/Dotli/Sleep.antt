-- ===== src/Dotli/Sleep.antt =====
-- example/dotli/src/lib.rs, `WasmSleep`: the timer that the platform gives the connection and
-- `open_ws`.
use microdot.Base.{
  ℕ, Bool, true, false, Option, none, some, List, [], ◌∷◌, if◌then◌else◌, ◌≡◌, refl,
}
use microdot.Dotli.WebSocket.{Poll, ready, pending}

-- The two shared cells.
pub record WasmSleep : Type 0 where
  pub done : Bool
  pub waker : Option ℕ

-- `sleep`, with its callback set
abbrev pub sleep : WasmSleep
sleep = record { done = false; waker = none }

unfoldable pub poll_sleep : ℕ → WasmSleep → Poll (Unit {0}) × WasmSleep
poll_sleep task s =
    if s.done then (ready tt, s) else (pending, record { done = s.done; waker = some task })

-- The callback of the timer, and the task that it wakes.
unfoldable pub on_timeout : WasmSleep → WasmSleep × Option ℕ
on_timeout s = (record { done = true; waker = none }, s.waker)

-- What happens to a sleep: polls by tasks, and the timeout.
pub data Step : Type 0 where
  polled : ℕ → Step
  timeout : Step

abbrev pub last_poller : Option ℕ → List Step → Option ℕ
last_poller task [] = task
last_poller task (polled n ∷ steps) = last_poller (some n) steps
last_poller task (timeout ∷ steps) = last_poller none steps

unfoldable pub perform_steps : List Step → WasmSleep → WasmSleep
perform_steps [] s = s
perform_steps (polled n ∷ steps) s = perform_steps steps ((poll_sleep n s).1)
perform_steps (timeout ∷ steps) s = perform_steps steps ((on_timeout s).0)

abbrev pub all_polls : List Step → Bool
all_polls [] = true
all_polls (polled n ∷ steps) = all_polls steps
all_polls (timeout ∷ steps) = false

waits :
    (steps : List Step) (task : Option ℕ)
    → all_polls steps ≡ true
    → perform_steps steps (record { done = false; waker = task })
      ≡ record { done = false; waker = last_poller task steps }
unfolding perform_steps poll_sleep
waits [] task h = refl
waits (polled n ∷ steps) task h = waits steps (some n) h
waits (timeout ∷ steps) task h = cc

-- However often a sleep is polled before its timeout, the timeout wakes the task that polled last, and
-- every poll after it is ready.
pub on_timeout_wakes :
    (steps : List Step) (task : ℕ)
    → all_polls steps ≡ true
    → ((on_timeout (perform_steps steps sleep)).1 ≡ last_poller none steps)
      × ((poll_sleep task ((on_timeout (perform_steps steps sleep)).0)).0 ≡ ready tt)
unfolding on_timeout poll_sleep
on_timeout_wakes steps task h = (rw (waits steps none h) refl, refl)
