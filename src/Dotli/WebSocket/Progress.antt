-- ===== src/Dotli/WebSocket/Progress.antt =====
-- Waiting on the bridge of example/dotli/src/lib.rs: a waiting task is woken when it has to be, and
-- how the opening of a socket ends.
use microdot.Base.{
  ℕ, ◌≤◌, ◌<◌, ◌≡◌, refl, sym, ap, ◌∙◌, Bool, true, false, Option, none, some, List, [], ◌∷◌, ◌++◌,
  Bytes, length, take, leb, ◌==◌, ok, Bool-cases, inl, inr, take-append, arith, All,
}
use microdot.Text.{text}
use microdot.Dotli.WebSocket.{
  WsState, ready, pending, Event, onopen, onmessage, onclose, onerror, on_event, read_exact,
  await_read, read, Signal, called, timer, Opening, connected, failed, timed_out, waiting,
  poll_open, await_open, open_ws,
}
use microdot.Dotli.WebSocket.Channel.{delivered}
use mathlib.Core.List.{append-nil, append_assoc}

-- Callbacks that neither close the socket nor report an error.
abbrev pub IsQuiet : Event → Type 0
IsQuiet onclose = ⊥
IsQuiet onerror = ⊥
IsQuiet e = Unit {0}

abbrev pub all_delivered : List Event → Bytes
all_delivered [] = []
all_delivered (e ∷ events) = delivered e ++ all_delivered events

==_refl : (n : ℕ) → (n == n) ≡ true
==_refl n = ground arith

take-longer : (n : ℕ) (xs ys : Bytes) → n ≤ length xs → take n xs ≡ take n (xs ++ ys)
take-longer n xs ys h =
    sym (append-nil (take n xs))
    ∙ ap (λ m. take n xs ++ take m ys) {x = 0} (omega (arith, h))
    ∙ sym (take-append n xs ys)

module _ (n task : ℕ) where
  abbrev listening : Bytes → Bool → WsState
  listening b opened = record {
    buffer = b;
    waker = some task;
    opened = opened;
    closed = false;
    error = none;
  }

  read_exact_full :
      (b : Bytes) (opened : Bool) (waker : Option ℕ)
      → leb n (length b) ≡ true
      → (read_exact n task
          (record { buffer = b; waker = waker; opened = opened; closed = false; error = none })).0
        ≡ ready (ok (take n b))
  unfolding read_exact
  read_exact_full b opened waker h = rw (h) refl

  read_exact_short :
      (b : Bytes) (opened : Bool) (waker : Option ℕ)
      → leb n (length b) ≡ false
      → read_exact n task
          (record { buffer = b; waker = waker; opened = opened; closed = false; error = none })
        ≡ (pending, listening b opened)
  unfolding read_exact
  read_exact_short b opened waker h = rw (h) refl

  -- A task that is woken too early waits on.
  await_read_again :
      (event : Event) (events : List Event) (b b' : Bytes) (o o' : Bool)
      → (on_event event (listening b o)).0
        ≡ record { buffer = b'; waker = none; opened = o'; closed = false; error = none }
      → (on_event event (listening b o)).1 ≡ some task
      → leb n (length b') ≡ false
      → await_read n task (event ∷ events) (listening b o)
        ≡ await_read n task events (listening b' o')
  unfolding await_read
  await_read_again event events b b' o o' e f h =
      rw (f, await_read, ==_refl task, e, read_exact_short b' o' none h)
        (rw (e, read_exact_short b' o' none h) refl)

  -- A task that is woken in time has its bytes.
  await_read_done :
      (event : Event) (events : List Event) (b b' : Bytes) (o o' : Bool)
      → (on_event event (listening b o)).0
        ≡ record { buffer = b'; waker = none; opened = o'; closed = false; error = none }
      → (on_event event (listening b o)).1 ≡ some task
      → leb n (length b') ≡ true
      → (await_read n task (event ∷ events) (listening b o)).0 ≡ ready (ok (take n b'))
  unfolding await_read
  await_read_done event events b b' o o' e f h =
      rw (f, await_read, ==_refl task, e, read_exact_full b' o' none h) refl

  await_read_completes :
      (events : List Event) (b : Bytes) (o : Bool)
      → All IsQuiet events
      → length b < n
      → n ≤ length (b ++ all_delivered events)
      → (await_read n task events (listening b o)).0
        ≡ ready (ok (take n (b ++ all_delivered events)))
  unfolding await_read on_event
  await_read_completes [] b o q l h = absurd (omega (arith, l, h, ap length (append-nil b)))
  await_read_completes (onopen ∷ events) b o (q, qs) l h =
      rw (await_read_again onopen events b b o true refl refl (ground (arith, l)))
        (await_read_completes events b true qs l h)
  await_read_completes (onmessage none ∷ events) b o (q, qs) l h =
      await_read_completes events b o qs l h
  await_read_completes (onmessage (some m) ∷ events) b o (q, qs) l h =
      elim (Bool-cases (leb n (length (b ++ m)))) [
        | inl t ↦
            await_read_done (onmessage (some m)) events b (b ++ m) o o refl refl t
            ∙ ap (λ x. ready (ok x))
                (take-longer n (b ++ m) (all_delivered events) (ground (arith, t)))
            ∙ ap (λ x. ready (ok (take n x))) (append_assoc b m (all_delivered events))
        | inr t ↦
            rw
              (
                await_read_again (onmessage (some m)) events b (b ++ m) o o refl refl t,
                sym (append_assoc b m (all_delivered events)),
              )
              (await_read_completes events (b ++ m) o qs (ground (arith, t))
                (omega (arith, h, ap length (append_assoc b m (all_delivered events)))))
      ]
  await_read_completes (onclose ∷ events) b o (q, qs) l h = absurd q
  await_read_completes (onerror ∷ events) b o (q, qs) l h = absurd q

  -- A read of `n` bytes on a socket without error that is not closed ends as soon as the buffer and
  -- what is delivered have `n` bytes, and gives the first `n` of them: no wake-up is lost, whatever
  -- other callbacks come between.
  pub read_completes :
      (events : List Event) (b : Bytes) (o : Bool) (waker : Option ℕ)
      → All IsQuiet events
      → n ≤ length (b ++ all_delivered events)
      → (read n task events
          (record { buffer = b; waker = waker; opened = o; closed = false; error = none })).0
        ≡ ready (ok (take n (b ++ all_delivered events)))
  unfolding read
  read_completes events b o waker q h = elim (Bool-cases (leb n (length b))) [
    | inl t ↦
        rw (read_exact_full b o waker t, read)
          (ap (λ x. ready (ok x)) (take-longer n b (all_delivered events) (ground (arith, t))))
    | inr t ↦
        rw (read_exact_short b o waker t, read)
          (rw (read_exact_short b o waker t)
            (await_read_completes events b o q (ground (arith, t)) h))
  ]

-- How an opening ends, by the first signal that decides it; `b` is what was delivered before.
abbrev pub verdict : Bytes → List Signal → Opening
verdict b [] = waiting
verdict b (timer ∷ signals) = timed_out
verdict b (called onopen ∷ signals) =
    connected (record { buffer = b; waker = none; opened = true; closed = false; error = none })
verdict b (called onclose ∷ signals) = failed (text "failed to connect")
verdict b (called onerror ∷ signals) = failed (text "WebSocket error")
verdict b (called (onmessage none) ∷ signals) = verdict b signals
verdict b (called (onmessage (some m)) ∷ signals) = verdict (b ++ m) signals

await_open-verdict :
    (task : ℕ) (signals : List Signal) (b : Bytes)
    → await_open task signals (listening 0 task b false) ≡ verdict b signals
unfolding await_open on_event poll_open
await_open-verdict task [] b = refl
await_open-verdict task (timer ∷ signals) b = refl
await_open-verdict task (called onopen ∷ signals) b = rw (==_refl task) refl
await_open-verdict task (called onclose ∷ signals) b = rw (==_refl task) refl
await_open-verdict task (called onerror ∷ signals) b = rw (==_refl task) refl
await_open-verdict task (called (onmessage none) ∷ signals) b = await_open-verdict task signals b
await_open-verdict task (called (onmessage (some m)) ∷ signals) b =
    rw (==_refl task) (await_open-verdict task signals (b ++ m))

-- The first callback other than a message, or the timer, decides how the opening of a socket
-- ends: it connects, with every byte delivered before in the buffer, or it fails, with the text of
-- a closed socket or of an error, or it times out; until one of them comes it waits.
pub open_ws-verdict : (task : ℕ) (signals : List Signal) → open_ws task signals ≡ verdict [] signals
unfolding open_ws poll_open
open_ws-verdict task signals = await_open-verdict task signals []
