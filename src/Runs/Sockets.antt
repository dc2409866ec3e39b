-- ===== src/Runs/Sockets.antt =====
-- Runs of the WebSocket bridge of example/dotli/src/lib.rs.
use microdot.Base.{refl, ◌≡◌, true, false, none, some, List, [], ◌∷◌, ◌++◌, ok, arith}
use microdot.Dotli.WebSocket.{
  ready, onopen, onmessage, fresh, read, called, timer, connected, open_ws,
}
use microdot.Dotli.Sleep.{on_timeout, perform_steps, polled, sleep, poll_sleep, on_timeout_wakes}
use microdot.Dotli.WebSocket.Channel.{Action, callback, poll, perform, perform-received}
use microdot.Dotli.WebSocket.Progress.{read_completes, open_ws-verdict}

-- two messages, of which reads of one, four and two bytes take parts
abbrev actions : List Action
actions =
    callback onopen
    ∷ callback (onmessage (some (1 ∷ 2 ∷ [])))
    ∷ poll 1 0
    ∷ poll 4 0
    ∷ callback (onmessage (some (3 ∷ 4 ∷ [])))
    ∷ poll 2 0
    ∷ []

perform-received_example :
    (perform actions fresh).1 ++ ((perform actions fresh).0).buffer ≡ 1 ∷ 2 ∷ 3 ∷ 4 ∷ []
perform-received_example = perform-received actions fresh

read_completes_example :
    (read 3 0
      (onmessage (some (1 ∷ 2 ∷ [])) ∷ onmessage none ∷ onmessage (some (3 ∷ 4 ∷ [])) ∷ [])
      (record { buffer = []; waker = none; opened = true; closed = false; error = none })).0
    ≡ ready (ok (1 ∷ 2 ∷ 3 ∷ []))
read_completes_example =
    read_completes 3 0
      (onmessage (some (1 ∷ 2 ∷ [])) ∷ onmessage none ∷ onmessage (some (3 ∷ 4 ∷ [])) ∷ []) [] true
      none (tt, (tt, (tt, tt))) (omega arith)

open_ws-verdict_example :
    open_ws 0 (called (onmessage (some (1 ∷ []))) ∷ called onopen ∷ timer ∷ [])
    ≡ connected
        (record { buffer = 1 ∷ []; waker = none; opened = true; closed = false; error = none })
open_ws-verdict_example =
    open_ws-verdict 0 (called (onmessage (some (1 ∷ []))) ∷ called onopen ∷ timer ∷ [])

on_timeout_wakes_example :
    ((on_timeout (perform_steps (polled 4 ∷ polled 7 ∷ []) sleep)).1 ≡ some 7)
    × ((poll_sleep 7 ((on_timeout (perform_steps (polled 4 ∷ polled 7 ∷ []) sleep)).0)).0
        ≡ ready tt)
on_timeout_wakes_example = on_timeout_wakes (polled 4 ∷ polled 7 ∷ []) 7 refl
