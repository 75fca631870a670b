-- ===== src/TestServer/Threads.antt =====
-- The threads of the server program of tst/c++/systemicai/http/server/server.cpp.
use advanced_flex_server.Common.{
  ℕ, zero, suc, ◌+◌, ◌-◌, ℤ, pos, negsuc, ◌≡◌, ◌⊎◌, inl, inr, refl, ap, ◌∙◌, arith,
}
use advanced_flex_server.Service.{thread_count}
use advanced_flex_server.TestServer.{Process, spawn}

-- So many threads are spawned beside `main`: one less than are asked for, and none where less than two
-- are.
abbrev pub Spawned : ℤ → ℕ → Type 0
Spawned asked spawned =
    (asked ≡ pos (spawned + 1)) ⊎ ((spawned ≡ 0) × ((asked ≡ pos 0) ⊎ (k : ℕ) × (asked ≡ negsuc k)))

pub thread_count-Spawned : (asked : ℤ) → Spawned asked (thread_count asked - 1)
unfolding thread_count
thread_count-Spawned (pos zero) = inr (refl, inl refl)
thread_count-Spawned (pos (suc n)) = inl (ground arith)
thread_count-Spawned (negsuc k) = inr (refl, inr (k, refl))

pub Spawned-thread_count :
    (asked : ℤ) (spawned : ℕ) → Spawned asked spawned → spawned ≡ thread_count asked - 1
unfolding thread_count
Spawned-thread_count asked spawned (inl e) = rw e (ground arith)
Spawned-thread_count asked spawned (inr (e, inl f)) = rw (e, f) refl
Spawned-thread_count asked spawned (inr (e, inr (k, f))) = rw (e, f) refl

pub spawn_lem : (n : ℕ) (p : Process) → spawn n p ≡ record p { pool = p.pool + n }
unfolding spawn
spawn_lem zero p = ground arith
spawn_lem (suc n) p =
    let e : p.pool + 1 + n ≡ p.pool + suc n = omega arith in
    spawn_lem n (record p { pool = p.pool + 1 }) ∙ ap (λ (pool : ℕ). record p { pool = pool }) e
