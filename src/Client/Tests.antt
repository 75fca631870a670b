-- ===== src/Client/Tests.antt =====
-- Runs of the client of src/c++/systemicai/http/client/api.hpp at concrete inputs.
use advanced_flex_server.Common.{
  run_all, List, [], ◌∷◌, Option, none, some, Bytes, ◌≡◌, refl, codes, ◌≤◌, ◌⊎◌, length,
}
use advanced_flex_server.Errors.{ErrorCode, success, other}
use advanced_flex_server.Client.{Client, new_client, run, fail, on_resolve, on_connect}
use advanced_flex_server.Client.Exchange.{Ended, step, complete_op, complete, complete_all}
use advanced_flex_server.Client.Classes.{
  master, new_of, run_of, complete_op_of, complete_of, step_of, complete_all_of, launched,
  complete_all_of-ends,
}

-- The host is found, and refuses the connection.
abbrev in_vain : List (ErrorCode × Bytes)
in_vain = (success, []) ∷ (other 111, []) ∷ []

abbrev or_new : Option Client → Client
or_new none = new_client
or_new (some c) = c

after_in_vain : Client
unfolding run_all step complete complete_op run new_client on_resolve on_connect
after_in_vain = or_new (
    complete_all in_vain
      (run (codes "Beast") none (codes "a.org") (codes "443") (codes "/") 11 new_client))

in_vain_log :
    (after_in_vain.log ≡ record { what = "connect"; code = other 111 } ∷ [])
    × (after_in_vain.outstanding ≡ [])
unfolding after_in_vain fail
in_vain_log = (refl, refl)

abbrev answered : List (ErrorCode × Bytes)
answered =
    (success, [])
    ∷ (success, [])
    ∷ (success, [])
    ∷ (success, [])
    ∷ (success, codes "hello")
    ∷ (ErrorCode.eof, [])
    ∷ []

abbrev a_master : Client
a_master = launched master (codes "Beast") none (codes "a.org") (codes "443") (codes "/") 11

abbrev served : Client
served = or_new (complete_all_of master answered a_master)

complete_all_of-ends_example :
    (length answered ≤ 6)
    × (Ended served ⊎ ((c' : Client) × (step_of master (success, []) served ≡ some c')))
unfolding run_all step_of complete_of complete_op_of run_of new_of fail
complete_all_of-ends_example =
    complete_all_of-ends master (codes "Beast") none (codes "a.org") (codes "443") (codes "/") 11
      answered served success [] refl
