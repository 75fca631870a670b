-- ===== src/TestServer/Shutdown.antt =====
-- How the server program of tst/c++/systemicai/http/server/server.cpp runs and ends.
use advanced_flex_server.Common.{
  run_all-keeps, run_all-length, ℕ, suc, zero, ◌+◌, ◌-◌, ◌≤◌, true, false, List, some, Bytes, ◌≡◌,
  ◌⊎◌, inl, inr, refl, ap, arith, length,
}
use advanced_flex_server.ServerSettings.{Settings}
use advanced_flex_server.Certificate.{SslContext}
use advanced_flex_server.TestServer.Threads.{spawn_lem}
use advanced_flex_server.TestServer.{
  Process, Main, in_run, joining, returned, Event, signals, thread_exits, main_exits, joined,
  listen, on_signal, exit_thread, exit_main, finish, step, steps,
}

-- Before a signal: all threads run the context, and one wait for a signal is outstanding.
abbrev pub IsServing : ℕ → Process → Type 0
IsServing threads p =
    (p.stopped ≡ false) × (p.signal_waits ≡ 1) × (p.main ≡ in_run) × (p.pool ≡ threads - 1)

-- After it: the context is stopped, and `main` returns only when no spawned thread is left.
abbrev pub IsEnding : ℕ → Process → Type 0
IsEnding threads p =
    (p.stopped ≡ true)
    × (p.signal_waits ≡ 0)
    × (p.pool ≤ threads - 1)
    × ((p.main ≡ in_run) ⊎ ((p.main ≡ joining) ⊎ ((p.main ≡ returned) × (p.pool ≡ 0))))

abbrev pub Phase : ℕ → Process → Type 0
Phase threads p = IsServing threads p ⊎ IsEnding threads p

abbrev main_steps : Main → ℕ
main_steps in_run = 2
main_steps joining = 1
main_steps returned = 0

-- How many steps are left.
abbrev pub steps_left : Process → ℕ
steps_left p = p.signal_waits + p.pool + main_steps p.main

on_signal-Phase :
    (n threads : ℕ) (p q : Process)
    → p.signal_waits ≡ n
    → Phase threads p
    → on_signal n p ≡ some q
    → Phase threads q × (steps_left q + 1 ≤ steps_left p)
unfolding on_signal
on_signal-Phase zero threads p q e v h = ground arith
on_signal-Phase (suc n) threads p q e v h = ground arith

exit_thread-Phase :
    (n threads : ℕ) (p q : Process)
    → p.pool ≡ n
    → Phase threads p
    → exit_thread n p ≡ some q
    → Phase threads q × (steps_left q + 1 ≤ steps_left p)
unfolding exit_thread
exit_thread-Phase zero threads p q e v h = ground arith
exit_thread-Phase (suc n) threads p q e v h = ground arith

exit_main-Phase :
    (m : Main) (threads : ℕ) (p q : Process)
    → p.main ≡ m
    → Phase threads p
    → exit_main m p ≡ some q
    → Phase threads q × (steps_left q + 1 ≤ steps_left p)
unfolding exit_main
exit_main-Phase m threads p q e v h = ground arith

finish-Phase :
    (m : Main) (n threads : ℕ) (p q : Process)
    → p.main ≡ m
    → p.pool ≡ n
    → Phase threads p
    → finish m n p ≡ some q
    → Phase threads q × (steps_left q + 1 ≤ steps_left p)
unfolding finish
finish-Phase joining zero threads p q e f v h = ground arith
finish-Phase joining (suc n) threads p q e f v h = ground arith
finish-Phase in_run n threads p q e f v h = ground arith
finish-Phase returned n threads p q e f v h = ground arith

step-Phase :
    (threads : ℕ) (e : Event) (p q : Process)
    → Phase threads p
    → step e p ≡ some q
    → Phase threads q × (steps_left q + 1 ≤ steps_left p)
unfolding step
step-Phase threads signals p q v h = on_signal-Phase p.signal_waits threads p q refl v h
step-Phase threads thread_exits p q v h = exit_thread-Phase p.pool threads p q refl v h
step-Phase threads main_exits p q v h = exit_main-Phase p.main threads p q refl v h
step-Phase threads joined p q v h = finish-Phase p.main p.pool threads p q refl refl v h

listen-IsServing :
    (g : Settings) (address : Bytes) (threads : ℕ) (ctx : SslContext)
    → IsServing threads (listen g address threads ctx)
unfolding listen
listen-IsServing g address threads ctx = rw spawn_lem (refl, refl, refl, omega arith)

-- Some event can happen next.
abbrev pub Next : Process → Type 0
Next p = (e : Event) × (q : Process) × (step e p ≡ some q)

signal-Next : (n : ℕ) (p : Process) → p.signal_waits ≡ n → n ≡ 1 → Next p
unfolding step on_signal
signal-Next zero p e one = absurd (omega (arith, one))
signal-Next (suc n) p e one = (signals, record p { signal_waits = n; stopped = true }, rw e refl)

ending-Next :
    (m : Main) (n threads : ℕ) (p : Process)
    → p.main ≡ m
    → p.pool ≡ n
    → IsEnding threads p
    → (p.main ≡ returned) ⊎ Next p
unfolding step exit_thread exit_main finish
ending-Next returned n threads p e f v = inl e
ending-Next in_run n threads p e f v =
    inr (main_exits, record p { main = joining }, rw (e, v.0) refl)
ending-Next joining zero threads p e f v =
    inr (joined, record p { main = returned }, rw (e, f) refl)
ending-Next joining (suc n) threads p e f v =
    inr (thread_exits, record p { pool = n }, rw (f, v.0) refl)

Phase-Next : (threads : ℕ) (p : Process) → Phase threads p → (p.main ≡ returned) ⊎ Next p
Phase-Next threads p (inl (_, waits, _, _)) = inr (signal-Next p.signal_waits p refl waits)
Phase-Next threads p (inr v) = ending-Next p.main p.pool threads p refl refl v

-- However the events come, the server program serves with all its threads until a signal stops its
-- context, then ends: its threads return from `run`, `main` joins them, and it returns only when
-- none is left. There are at most two events more than threads, and unless `main` has returned there
-- is one that can happen next. The number of threads is at least one.
pub steps-ends :
    (g : Settings) (address : Bytes) (threads : ℕ) (ctx : SslContext) (es : List Event)
    (p : Process)
    → 1 ≤ threads
    → steps es (listen g address threads ctx) ≡ some p
    → (length es ≤ threads + 2) × Phase threads p × ((p.main ≡ returned) ⊎ Next p)
steps-ends g address threads ctx es p positive h =
    let first = listen g address threads ctx in
    let (running, one, within, all) = listen-IsServing g address threads ctx in
    let v : Phase threads first = inl (running, one, within, all) in
    let moves = step-Phase threads in
    let phase =
      run_all-keeps step (Phase threads) (λ e q r k m. (moves e q r k m).0) es first p v h in
    let few = run_all-length step (Phase threads) steps_left moves es first p v h in
    let ahead = ap main_steps within in
    (omega (arith, few, positive, one, all, ahead), phase, Phase-Next threads p phase)
