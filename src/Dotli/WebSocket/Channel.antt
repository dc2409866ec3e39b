-- ===== src/Dotli/WebSocket/Channel.antt =====
-- The bridge of example/dotli/src/lib.rs as a queue of bytes: what the reader takes is what the
-- socket delivered, in order, however callbacks and polls interleave.
use microdot.Base.{
  ℕ, ◌≡◌, refl, sym, ap, ◌∙◌, none, some, List, [], ◌∷◌, ◌++◌, Bytes, length, leb, Result, ok,
  Bool-cases, Option-cases, inl, inr, take-append-drop,
}
use microdot.Text.{Text}
use microdot.Dotli.WebSocket.{
  WsState, Poll, ready, Event, onopen, onmessage, onclose, onerror, on_event, read_exact,
}
use mathlib.Core.List.{append-nil, append_assoc}

-- What happens to a bridge: a callback, or a poll of `read_exact` for some bytes by some task.
pub data Action : Type 0 where
  callback : Event → Action
  poll : ℕ → ℕ → Action

abbrev pub delivered : Event → Bytes
delivered (onmessage (some bytes)) = bytes
delivered e = []

abbrev pub taken : Poll (Result Text Bytes) → Bytes
taken (ready (ok bytes)) = bytes
taken p = []

-- The state after the actions, and the bytes that the polls took.
unfoldable pub perform : List Action → WsState → WsState × Bytes
perform [] st = (st, [])
perform (callback e ∷ actions) st = perform actions ((on_event e st).0)
perform (poll n task ∷ actions) st =
    let answer = read_exact n task st in
    let later = perform actions (answer.1) in (later.0, taken (answer.0) ++ later.1)

-- The bytes that the socket delivered during the actions.
abbrev pub received : List Action → Bytes
received [] = []
received (callback e ∷ actions) = delivered e ++ received actions
received (poll n task ∷ actions) = received actions

on_event-buffer : (e : Event) (st : WsState) → ((on_event e st).0).buffer ≡ st.buffer ++ delivered e
unfolding on_event
on_event-buffer onopen st = sym (append-nil (st.buffer))
on_event-buffer (onmessage none) st = sym (append-nil (st.buffer))
on_event-buffer (onmessage (some bytes)) st = refl
on_event-buffer onclose st = sym (append-nil (st.buffer))
on_event-buffer onerror st = sym (append-nil (st.buffer))

read_exact-buffer :
    (n task : ℕ) (st : WsState)
    → taken ((read_exact n task st).0) ++ ((read_exact n task st).1).buffer ≡ st.buffer
unfolding read_exact
read_exact-buffer n task st = elim (Option-cases (st.error)) [
  | inr (e, q) ↦ rw (q, read_exact) refl
  | inl q ↦ elim (Bool-cases (leb n (length (st.buffer)))) [
    | inl l ↦ rw (q, read_exact, l) (take-append-drop n (st.buffer))
    | inr l ↦ elim (Bool-cases (st.closed)) [
      | inl c ↦ rw (q, read_exact, l, c) refl
      | inr c ↦ rw (q, read_exact, l, c) refl
    ]
  ]
]

-- Whatever the interleaving of callbacks and polls, the bytes that successful reads took, followed
-- by the buffer that is left, are the buffer at the start followed by the bytes delivered: nothing
-- is lost, repeated or reordered, also by reads that fail or wait.
pub perform-received :
    (actions : List Action) (st : WsState)
    → (perform actions st).1 ++ ((perform actions st).0).buffer ≡ st.buffer ++ received actions
unfolding perform
perform-received [] st = sym (append-nil (st.buffer))
perform-received (callback e ∷ actions) st =
    perform-received actions ((on_event e st).0)
    ∙ ap (λ b. b ++ received actions) (on_event-buffer e st)
    ∙ append_assoc (st.buffer) (delivered e) (received actions)
perform-received (poll n task ∷ actions) st =
    append_assoc (taken ((read_exact n task st).0)) _ _
    ∙ ap (◌++◌ (taken ((read_exact n task st).0)))
        (perform-received actions ((read_exact n task st).1))
    ∙ sym (append_assoc (taken ((read_exact n task st).0)) _ (received actions))
    ∙ ap (λ b. b ++ received actions) (read_exact-buffer n task st)
