-- ===== src/Dotli/WebSocket.antt =====
-- example/dotli/src/lib.rs: the bridge from the browser's WebSocket to a reader of bytes. The
-- browser's callbacks are events; a waker is the number of the task that it wakes.
pub mod Channel
pub mod Progress
use microdot.Base.{
  ℕ, Bool, true, false, ◌||◌, Option, none, some, List, [], ◌∷◌, ◌++◌, Bytes, length, take, drop,
  leb, ◌==◌, if◌then◌else◌, Result, ok, err,
}
use microdot.Text.{Text, text}

pub record WsState : Type 0 where
  pub buffer : Bytes
  pub waker : Option ℕ
  pub opened : Bool
  pub closed : Bool
  pub error : Option Text

pub data Poll (A : Type 0) : Type 0 where
  ready : A → Poll A
  pending : Poll A

-- What the browser calls; a message carries bytes if its data are an `ArrayBuffer`.
pub data Event : Type 0 where
  onopen : Event
  onmessage : Option Bytes → Event
  onclose : Event
  onerror : Event

abbrev pub fresh : WsState
fresh = record { buffer = []; waker = none; opened = false; closed = false; error = none }

-- `st.waker.take()`, and the task it wakes
abbrev pub wake : WsState → WsState × Option ℕ
wake st = (
  record {
    buffer = st.buffer;
    waker = none;
    opened = st.opened;
    closed = st.closed;
    error = st.error;
  },
  st.waker,
)

-- The four callbacks.
unfoldable pub on_event : Event → WsState → WsState × Option ℕ
on_event onopen st = wake (record {
  buffer = st.buffer;
  waker = st.waker;
  opened = true;
  closed = st.closed;
  error = st.error;
})
on_event (onmessage none) st = (st, none)
on_event (onmessage (some bytes)) st = wake (record {
  buffer = st.buffer ++ bytes;
  waker = st.waker;
  opened = st.opened;
  closed = st.closed;
  error = st.error;
})
on_event onclose st = wake (record {
  buffer = st.buffer;
  waker = st.waker;
  opened = st.opened;
  closed = true;
  error = st.error;
})
on_event onerror st = wake (record {
  buffer = st.buffer;
  waker = st.waker;
  opened = st.opened;
  closed = st.closed;
  error = some (text "WebSocket error");
})

abbrev pub set_waker : ℕ → WsState → WsState
set_waker task st = record {
  buffer = st.buffer;
  waker = some task;
  opened = st.opened;
  closed = st.closed;
  error = st.error;
}

abbrev pub clear_error : WsState → WsState
clear_error st = record {
  buffer = st.buffer;
  waker = st.waker;
  opened = st.opened;
  closed = st.closed;
  error = none;
}

abbrev pub pop_front : ℕ → WsState → WsState
pop_front n st = record {
  buffer = drop n (st.buffer);
  waker = st.waker;
  opened = st.opened;
  closed = st.closed;
  error = st.error;
}

-- One poll of `read_exact` for `n` bytes by `task`.
unfoldable pub read_exact : ℕ → ℕ → WsState → Poll (Result Text Bytes) × WsState
read_exact n task st = elim (st.error) [
  | some e ↦ (ready (err e), clear_error st)
  | none ↦
      if leb n (length (st.buffer))
      then (ready (ok (take n (st.buffer))), pop_front n st)
      else if st.closed
      then (ready (err (text "connection closed")), st)
      else (pending, set_waker task st)
]

-- One poll of `open_fut`.
unfoldable pub poll_open : ℕ → WsState → Poll (Result Text (Unit {0})) × WsState
poll_open task st = if st.opened then (ready (ok tt), st) else elim (st.error) [
  | some e ↦ (ready (err e), clear_error st)
  | none ↦
      if st.closed
      then (ready (err (text "failed to connect")), st)
      else (pending, set_waker task st)
]

-- What `select` waits for: a callback of the socket, or the timer.
pub data Signal : Type 0 where
  called : Event → Signal
  timer : Signal

pub data Opening : Type 0 where
  connected : WsState → Opening
  failed : Text → Opening
  -- `ws open timed out after {}ms`
  timed_out : Opening
  waiting : Opening

-- `Either::Left((res, _)) => res?`
abbrev pub settle : Result Text (Unit {0}) → WsState → Opening
settle (ok u) st = connected st
settle (err e) st = failed e

-- `select(open_fut, timer)` with the future pending: it is polled again when its task is woken, and
-- the timer ends the wait.
unfoldable pub await_open : ℕ → List Signal → WsState → Opening
await_open task [] st = waiting
await_open task (timer ∷ signals) st = timed_out
await_open task (called event ∷ signals) st =
    let called_back = on_event event st in
    let answer = poll_open task (called_back.0) in
    elim (called_back.1) [
      | none ↦ await_open task signals (called_back.0)
      | some woken ↦
          if woken == task
          then elim (answer.0) [
            | ready r ↦ settle r (answer.1)
            | pending ↦ await_open task signals (answer.1)
          ]
          else await_open task signals (called_back.0)
    ]

-- The part of `open_ws` after the socket is made.
unfoldable pub open_ws : ℕ → List Signal → Opening
open_ws task signals =
    let answer = poll_open task fresh in
    elim (answer.0) [ ready r ↦ settle r (answer.1) | pending ↦ await_open task signals (answer.1) ]

-- A task that waits in `read_exact`: it is polled again only when it is woken.
unfoldable pub await_read : ℕ → ℕ → List Event → WsState → Poll (Result Text Bytes) × WsState
await_read n task [] st = (pending, st)
await_read n task (event ∷ events) st =
    let called_back = on_event event st in
    let answer = read_exact n task (called_back.0) in
    elim (called_back.1) [
      | none ↦ await_read n task events (called_back.0)
      | some woken ↦
          if woken == task
          then elim (answer.0) [
            | ready r ↦ (ready r, answer.1)
            | pending ↦ await_read n task events (answer.1)
          ]
          else await_read n task events (called_back.0)
    ]

-- `read_exact(buf).await`
unfoldable pub read : ℕ → ℕ → List Event → WsState → Poll (Result Text Bytes) × WsState
read n task events st =
    let answer = read_exact n task st in
    elim (answer.0) [
      | ready r ↦ (ready r, answer.1)
      | pending ↦ await_read n task events (answer.1)
    ]
