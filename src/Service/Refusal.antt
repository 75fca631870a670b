-- ===== src/Service/Refusal.antt =====
-- A service of src/c++/systemicai/http/server/service.hpp whose address is not valid.
use advanced_flex_server.Common.{
  run_all, ℕ, ◌+◌, ◌⊎◌, List, [], ◌∷◌, ◌++◌, Option, none, some, Bytes, zero, suc, true, false, ◌≡◌,
  refl, arith, Option-cases, c_str, ap, ◌∙◌, inl, inr, Bool,
}
use advanced_flex_server.Errors.{ErrorCode}
use advanced_flex_server.ServerSettings.{Settings}
use advanced_flex_server.Listener.{AcceptorCall}
use advanced_flex_server.Service.{
  Service, Exit, exit_failure, invalid_address, away, new_service, stop, start, is_some,
}
use advanced_flex_server.Service.Steps.{
  ServiceEvent, starts, stops, signals, thread_exits, caller_exits, joined, on_signal, exit_thread,
  exit_caller, finish, step, steps,
}

-- The calls of `start` in a schedule.
unfoldable pub count_starts : List ServiceEvent → ℕ
count_starts [] = zero
count_starts (starts ∷ es) = suc (count_starts es)
count_starts (e ∷ es) = count_starts es

abbrev failures : ℕ → List Exit
failures zero = []
failures (suc n) = exit_failure ∷ failures n

-- One exception, then failures.
abbrev pub refusals : ℕ → List Exit
refusals zero = []
refusals (suc n) = invalid_address ∷ failures n

failures-next : (n : ℕ) → failures n ++ exit_failure ∷ [] ≡ failures (suc n)
failures-next zero = refl
failures-next (suc n) = ap (λ r. exit_failure ∷ r) (failures-next n)

abbrev is_suc : ℕ → Bool
is_suc zero = false
is_suc (suc n) = true

started : (n : ℕ) (b : Bool) → b ≡ is_suc n → (n ≡ 0) ⊎ (b ≡ true)
started zero b e = inl refl
started (suc n) b e = inr e

-- After `n` calls of `start`.
record Refused (s : Settings) (n : ℕ) (sv : Service) : Type 0 where
  kept : sv.settings ≡ s
  none_left : sv.pool ≡ 0
  nobody : sv.caller ≡ away
  context : is_some sv.ioc ≡ is_suc n
  ended : sv.exits ≡ refusals n

module _ (make_address : Bytes → Option Bytes) (reported : AcceptorCall → ErrorCode)
    (s : Settings) where
  start-Refused :
      (n : ℕ) (sv : Service)
      → make_address (c_str s.interface_address) ≡ none
      → Refused s n sv
      → Refused s (suc n) (start make_address reported sv)
  unfolding start
  start-Refused zero sv bad v =
      let address : sv.settings.interface_address ≡ s.interface_address =
        ap (λ (t : Settings). t.interface_address) v.kept in
      rw (v.context, address, bad)
        (record {
          kept = v.kept;
          none_left = v.none_left;
          nobody = v.nobody;
          context = refl;
          ended = ap (λ r. r ++ invalid_address ∷ []) v.ended;
        })
  start-Refused (suc n) sv bad v = rw v.context (record {
    kept = v.kept;
    none_left = v.none_left;
    nobody = v.nobody;
    context = v.context;
    ended =
        ap (λ r. r ++ exit_failure ∷ []) v.ended ∙ ap (λ r. invalid_address ∷ r) (failures-next n);
  })

  stop-Refused : (n : ℕ) (sv sv' : Service) → Refused s n sv → stop sv ≡ some sv' → Refused s n sv'
  unfolding stop
  stop-Refused n sv sv' v h = record {
    kept = ground arith;
    none_left = ground arith;
    nobody = ground arith;
    context = ground arith;
    ended = ground arith;
  }

  on_signal-Refused :
      (n : ℕ) (sv sv' : Service) → Refused s n sv → on_signal sv ≡ some sv' → Refused s n sv'
  unfolding on_signal
  on_signal-Refused n sv sv' v h = record {
    kept = ground arith;
    none_left = ground arith;
    nobody = ground arith;
    context = ground arith;
    ended = ground arith;
  }

  nothing :
      (sv : Service)
      → sv.pool ≡ 0
      → sv.caller ≡ away
      → (exit_thread sv.pool sv ≡ none)
        × (exit_caller sv.caller sv ≡ none)
        × (finish sv.caller sv.pool sv ≡ none)
  unfolding exit_thread exit_caller finish
  nothing sv p c = (rw p refl, rw c refl, rw c refl)

  impossible : (P : Type 0) (sv : Service) → none ≡ some sv → P
  impossible P sv h = cc

  all-Refused :
      (es : List ServiceEvent) (n : ℕ) (sv sv' : Service)
      → make_address (c_str s.interface_address) ≡ none
      → Refused s n sv
      → steps make_address reported es sv ≡ some sv'
      → (k : ℕ) × Refused s k sv' × (k ≡ n + count_starts es)
  unfolding run_all count_starts step
  all-Refused [] n sv sv' bad v h = let same : sv ≡ sv' = cc in rw (← same) (n, v, omega arith)
  all-Refused (starts ∷ es) n sv sv' bad v h =
      let (k, w, e) =
        all-Refused es (suc n) (start make_address reported sv) sv' bad (start-Refused n sv bad v)
          h in
      (k, w, omega (arith, e))
  all-Refused (stops ∷ es) n sv sv' bad v h = elim (Option-cases (stop sv)) [
    | inl missing ↦ ground (arith, missing)
    | inr (u, found) ↦
        all-Refused es n u sv' bad (stop-Refused n sv u v found) (rw (found, run_all) at h)
  ]
  all-Refused (signals ∷ es) n sv sv' bad v h = elim (Option-cases (on_signal sv)) [
    | inl missing ↦ ground (arith, missing)
    | inr (u, found) ↦
        all-Refused es n u sv' bad (on_signal-Refused n sv u v found) (rw (found, run_all) at h)
  ]
  all-Refused (thread_exits ∷ es) n sv sv' bad v h =
      let (stuck, _, _) = nothing sv v.none_left v.nobody in
      impossible _ sv' (rw (stuck, run_all) at h)
  all-Refused (caller_exits ∷ es) n sv sv' bad v h =
      let (_, stuck, _) = nothing sv v.none_left v.nobody in
      impossible _ sv' (rw (stuck, run_all) at h)
  all-Refused (joined ∷ es) n sv sv' bad v h =
      let (_, _, stuck) = nothing sv v.none_left v.nobody in
      impossible _ sv' (rw (stuck, run_all) at h)

  -- Where the address of the settings is not valid, the first call of `start` throws, and each later
  -- one returns EXIT_FAILURE, as if the service were running, whatever happens in between: no
  -- thread runs it, and it never becomes startable again.
  pub refused_forever :
      (es : List ServiceEvent) (sv : Service)
      → make_address (c_str s.interface_address) ≡ none
      → steps make_address reported es (new_service s) ≡ some sv
      → (sv.exits ≡ refusals (count_starts es))
        × (sv.pool ≡ 0)
        × (sv.caller ≡ away)
        × ((count_starts es ≡ 0) ⊎ (is_some sv.ioc ≡ true))
  unfolding new_service
  refused_forever es sv bad h =
      let (k, v, e) =
        all-Refused es zero (new_service s) sv bad
          (record { kept = refl; none_left = refl; nobody = refl; context = refl; ended = refl })
          h in
      let same : k ≡ count_starts es = omega (arith, e) in
      rw (← same) (v.ended, v.none_left, v.nobody, started k (is_some sv.ioc) v.context)
