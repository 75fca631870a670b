-- ===== src/Client/Termination.antt =====
-- How a run of the client of src/c++/systemicai/http/client/api.hpp ends.
use advanced_flex_server.Common.{
  ℕ, ◌+◌, ◌≤◌, List, [], ◌∷◌, Option, none, some, Bytes, ◌≡◌, ◌⊎◌, inl, inr, refl, arith, length,
  run_all-length, run_all,
}
use advanced_flex_server.Errors.{ErrorCode}
use advanced_flex_server.Client.{
  Client, Operation, resolve, connect, handshake, write, read, shut_down, new_client, run,
  on_resolve, on_connect, on_handshake, on_write, on_read, on_shutdown,
}
use advanced_flex_server.Client.Exchange.{
  complete_op, complete, step, complete_all, UnderWay, Ended, complete_all-outcome, stepped,
}

-- How many operations come from this one on.
abbrev pub steps_from : Operation → ℕ
steps_from (resolve host port) = 6
steps_from connect = 5
steps_from handshake = 4
steps_from (write req) = 3
steps_from read = 2
steps_from shut_down = 1

abbrev pub steps_left : List Operation → ℕ
steps_left [] = 0
steps_left (op ∷ ops) = steps_from op + steps_left ops

complete_op-falls :
    (op : Operation) (ec : ErrorCode) (res : Bytes) (c : Client)
    → c.outstanding ≡ []
    → steps_left (complete_op op ec res c).outstanding + 1 ≤ steps_from op
unfolding complete_op on_resolve on_connect on_handshake on_write on_read on_shutdown
complete_op-falls (resolve host port) ec res c o = ground arith
complete_op-falls connect ec res c o = ground arith
complete_op-falls handshake ec res c o = ground arith
complete_op-falls (write req) ec res c o = ground arith
complete_op-falls read ec res c o = ground arith
complete_op-falls shut_down ec res c o = ground arith

pub complete-falls :
    (ops : List Operation) (ec : ErrorCode) (res : Bytes) (c c' : Client)
    → c.outstanding ≡ ops
    → UnderWay c ⊎ Ended c
    → complete ops ec res c ≡ some c'
    → steps_left c'.outstanding + 1 ≤ steps_left c.outstanding
unfolding complete
complete-falls [] ec res c c' e v h = cc
complete-falls (op ∷ rest) ec res c c' e v h =
    ground (arith, complete_op-falls op ec res (record c { outstanding = rest }))

pub run-few :
    (version_string : Bytes) (sni : Option ErrorCode) (host port target : Bytes) (version : ℕ)
    → steps_left (run version_string sni host port target version new_client).outstanding ≤ 6
unfolding run new_client
run-few version_string (some ec) host port target version = ground arith
run-few version_string none host port target version = ground arith

can_go_on :
    (ops : List Operation) (ec : ErrorCode) (res : Bytes) (c : Client)
    → c.outstanding ≡ ops
    → UnderWay c ⊎ Ended c
    → Ended c ⊎ ((c' : Client) × (complete ops ec res c ≡ some c'))
unfolding complete
can_go_on ops ec res c e (inr over) = inl over
can_go_on [] ec res c e (inl (op, one, _, _, _)) = ground arith
can_go_on (op ∷ rest) ec res c e (inl v) = inr (_, refl)

-- Every run of the client ends: at most six of its operations complete, and as long as it has not
-- ended, its next operation can complete, with any error code and any response.
pub complete_all-ends :
    (version_string : Bytes) (sni : Option ErrorCode) (host port target : Bytes) (version : ℕ)
    (es : List (ErrorCode × Bytes)) (c : Client) (ec : ErrorCode) (res : Bytes)
    → complete_all es (run version_string sni host port target version new_client) ≡ some c
    → (length es ≤ 6) × (Ended c ⊎ ((c' : Client) × (step (ec, res) c ≡ some c')))
unfolding step run_all
complete_all-ends version_string sni host port target version es c ec res h =
    let first = run version_string sni host port target version new_client in
    let outcome = complete_all-outcome version_string sni host port target version in
    let bound =
      run_all-length step (λ (t : Client). UnderWay t ⊎ Ended t) (λ t. steps_left t.outstanding)
        (λ e t t' v k. (stepped e t t' v k, complete-falls t.outstanding e.0 e.1 t t' refl v k)) es
        first c (outcome [] first refl) h in
    (
      omega (arith, bound, run-few version_string sni host port target version),
      can_go_on c.outstanding ec res c refl (outcome es c h),
    )
