-- ===== src/Client/Exchange.antt =====
-- A whole exchange of the client of src/c++/systemicai/http/client/api.hpp.
use advanced_flex_server.Common.{
  run_all, run_all-keeps, ℕ, ◌+◌, Bool, true, false, List, [], ◌∷◌, Option, none, some, Bytes, ◌≡◌,
  ◌⊎◌, inl, inr, refl, sym, ap, ◌∙◌, arith, length, length-append, Option-cases, Bool-cases,
  some-injective,
}
use advanced_flex_server.Errors.{ErrorCode, success, eof, is_error}
use advanced_flex_server.Client.{
  Client, ClientRequest, Operation, resolve, connect, handshake, write, read, shut_down, new_client,
  run, fail, on_resolve, on_connect, on_handshake, on_write, on_read, on_shutdown, without_eof,
}

-- The completion of an operation, with the response if it was a read.
unfoldable pub complete_op : Operation → ErrorCode → Bytes → Client → Client
unfolding on_resolve on_connect on_handshake on_write on_read on_shutdown
complete_op (resolve host port) ec res c = on_resolve ec c
complete_op connect ec res c = on_connect ec c
complete_op handshake ec res c = on_handshake ec c
complete_op (write req) ec res c = on_write ec c
complete_op read ec res c = on_read ec res c
complete_op shut_down ec res c = on_shutdown ec c

-- The completion of the first outstanding operation; `none` if there is none.
unfoldable pub complete : List Operation → ErrorCode → Bytes → Client → Option Client
unfolding complete_op
complete [] ec res c = none
complete (op ∷ rest) ec res c = some (complete_op op ec res (record c { outstanding = rest }))

-- The next completion, with its response.
unfoldable pub step : ErrorCode × Bytes → Client → Option Client
unfolding complete
step (ec, res) c = complete c.outstanding ec res c

abbrev pub complete_all : List (ErrorCode × Bytes) → Client → Option Client
complete_all es c = run_all step es c

abbrev pub has_request : Option ClientRequest → Bool
has_request none = false
has_request (some req) = true

-- How many responses have been printed when this operation is outstanding.
abbrev pub printed_at : Operation → ℕ
printed_at shut_down = 1
printed_at _ = 0

abbrev pub UnderWay : Client → Type 0
UnderWay c =
    (op : Operation) × (c.outstanding ≡ op ∷ [])
    × (c.log ≡ [])
    × (length c.printed ≡ printed_at op)
    × (has_request c.req ≡ true)

abbrev pub Ended : Client → Type 0
Ended c = (c.outstanding ≡ []) × (((c.log ≡ []) × (length c.printed ≡ 1)) ⊎ (length c.log ≡ 1))

op-kept :
    (op : Operation) (ec : ErrorCode) (res : Bytes) (c : Client)
    → c.outstanding ≡ []
    → c.log ≡ []
    → length c.printed ≡ printed_at op
    → has_request c.req ≡ true
    → UnderWay (complete_op op ec res c) ⊎ Ended (complete_op op ec res c)
unfolding complete_op on_resolve on_connect on_handshake on_write on_read on_shutdown fail
op-kept (resolve host port) ec res c o l p r = elim (Bool-cases (is_error ec)) [
  | inl bad ↦ rw (bad, l) (inr (o, inr refl))
  | inr ok ↦ rw (ok, o, l) (inl (connect, refl, refl, p, r))
]
op-kept connect ec res c o l p r = elim (Bool-cases (is_error ec)) [
  | inl bad ↦ rw (bad, l) (inr (o, inr refl))
  | inr ok ↦ rw (ok, o, l) (inl (handshake, refl, refl, p, r))
]
op-kept handshake ec res c o l p r = elim (Bool-cases (is_error ec)) [
  | inl bad ↦ rw (bad, l) (inr (o, inr refl))
  | inr ok ↦ elim (Option-cases c.req) [
    | inl unset ↦ ground (arith, unset)
    | inr (req, set) ↦ rw (ok, set, o, l) (inl (write req, refl, refl, p, r))
  ]
]
op-kept (write req) ec res c o l p r = elim (Bool-cases (is_error ec)) [
  | inl bad ↦ rw (bad, l) (inr (o, inr refl))
  | inr ok ↦ rw (ok, o, l) (inl (read, refl, refl, p, r))
]
op-kept read ec res c o l p r = elim (Bool-cases (is_error ec)) [
  | inl bad ↦ rw (bad, l) (inr (o, inr refl))
  | inr ok ↦
      rw (ok, o, l)
        (inl (shut_down, refl, refl, length-append c.printed (res ∷ []) ∙ ap (λ n. n + 1) p, r))
]
op-kept shut_down ec res c o l p r = elim (Bool-cases (is_error (without_eof ec))) [
  | inl bad ↦ rw (bad, l) (inr (o, inr refl))
  | inr ok ↦ rw ok (inr (o, inl (l, p)))
]

apart : (P : Type 0) (op : Operation) (rest : List Operation) → [] ≡ op ∷ rest → P
apart P op rest h = cc

pub completed :
    (ops : List Operation) (ec : ErrorCode) (res : Bytes) (c c' : Client)
    → c.outstanding ≡ ops
    → UnderWay c ⊎ Ended c
    → complete ops ec res c ≡ some c'
    → UnderWay c' ⊎ Ended c'
unfolding complete
completed [] ec res c c' e v h = cc
completed (op ∷ rest) ec res c c' e (inl (now, one, l, p, r)) h =
    let same : op ≡ now = cc in
    let last : rest ≡ [] = cc in
    let next : complete_op op ec res (record c { outstanding = rest }) ≡ c' =
      some-injective _ _ h in
    rw (← next)
      (op-kept op ec res (record c { outstanding = rest }) last l (p ∙ ap printed_at (sym same)) r)
completed (op ∷ rest) ec res c c' e (inr (gone, _)) h =
    apart (UnderWay c' ⊎ Ended c') op rest (sym gone ∙ e)

pub stepped :
    (e : ErrorCode × Bytes) (c c' : Client)
    → UnderWay c ⊎ Ended c
    → step e c ≡ some c'
    → UnderWay c' ⊎ Ended c'
unfolding step
stepped (ec, res) c c' v h = completed c.outstanding ec res c c' refl v h

completed_all :
    (es : List (ErrorCode × Bytes)) (c c' : Client)
    → UnderWay c ⊎ Ended c
    → complete_all es c ≡ some c'
    → UnderWay c' ⊎ Ended c'
completed_all es c c' v h =
    run_all-keeps step (λ (t : Client). UnderWay t ⊎ Ended t) stepped es c c' v h

-- After any completions of a client that was run, either it is under way, with exactly one operation
-- outstanding, no line in the log, and the response printed only when the shutdown is outstanding;
-- or it has ended, with nothing outstanding, and has printed one response or logged one failure. So
-- no run ends in silence.
pub complete_all-outcome :
    (version_string : Bytes) (sni : Option ErrorCode) (host port target : Bytes) (version : ℕ)
    (es : List (ErrorCode × Bytes)) (c : Client)
    → complete_all es (run version_string sni host port target version new_client) ≡ some c
    → UnderWay c ⊎ Ended c
unfolding run new_client fail
complete_all-outcome version_string (some ec) host port target version es c h =
    completed_all es _ c (inr (refl, inr refl)) h
complete_all-outcome version_string none host port target version es c h =
    completed_all es _ c (inl (resolve host port, refl, refl, refl, refl)) h

-- When every operation succeeds but the shutdown, which ends by the end of the stream, the client has
-- printed the response once, nothing is logged, and nothing is outstanding.
pub complete_all-success :
    (version_string host port target : Bytes) (version : ℕ) (res r1 r2 r3 r4 r6 : Bytes)
    → complete_all
        ((success, r1)
          ∷ (success, r2)
          ∷ (success, r3)
          ∷ (success, r4)
          ∷ (success, res)
          ∷ (eof, r6)
          ∷ [])
        (run version_string none host port target version new_client)
      ≡ some (record {
        req = some (record {
          version = version;
          target = target;
          host = host;
          user_agent = version_string;
        });
        outstanding = [];
        printed = res ∷ [];
        log = [];
      })
unfolding run_all step complete complete_op run new_client on_resolve on_connect on_handshake
    on_write on_read on_shutdown
complete_all-success version_string host port target version res r1 r2 r3 r4 r6 = refl
