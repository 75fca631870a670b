-- ===== src/Client/Classes.antt =====
-- The three client classes of src/c++/systemicai/http/client/api.hpp side by side.
use advanced_flex_server.Common.{
  run_all, ℕ, ◌≤◌, List, [], ◌∷◌, Option, none, some, Bytes, ◌≡◌, ◌⊎◌, refl, ap, ◌∙◌, length,
  fun_ext,
}
use advanced_flex_server.Errors.{ErrorCode}
use advanced_flex_server.Client as Signing
use advanced_flex_server.Client.Master as Master
use advanced_flex_server.Client.Child as Child
use advanced_flex_server.Client.{
  Client, Operation, resolve, connect, handshake, write, read, shut_down, new_client,
}
use advanced_flex_server.Client.Exchange.{complete_op, complete, step, Ended}
use advanced_flex_server.Client.Termination.{complete_all-ends}

pub data Class : Type 0 where
  signing master child : Class

-- A client of this class, as constructed.
unfoldable pub new_of : Class → Client
unfolding new_client Master.new_master Child.new_child
new_of signing = new_client
new_of master = Master.new_master
new_of child = Child.new_child

unfoldable pub run_of :
    Class → Bytes → Option ErrorCode → Bytes → Bytes → Bytes → ℕ → Client → Client
unfolding Signing.run Master.run Child.run
run_of signing = Signing.run
run_of master = Master.run
run_of child = Child.run

-- The completion of an operation of a client of this class, with the response if it was a read.
unfoldable pub complete_op_of : Class → Operation → ErrorCode → Bytes → Client → Client
unfolding complete_op Master.on_resolve Master.on_connect Master.on_handshake Master.on_write
    Master.on_read Master.on_shutdown Child.on_resolve Child.on_connect Child.on_handshake
    Child.on_write Child.on_read Child.on_shutdown
complete_op_of signing op ec res c = complete_op op ec res c
complete_op_of master (resolve host port) ec res c = Master.on_resolve ec c
complete_op_of master connect ec res c = Master.on_connect ec c
complete_op_of master handshake ec res c = Master.on_handshake ec c
complete_op_of master (write req) ec res c = Master.on_write ec c
complete_op_of master read ec res c = Master.on_read ec res c
complete_op_of master shut_down ec res c = Master.on_shutdown ec c
complete_op_of child (resolve host port) ec res c = Child.on_resolve ec c
complete_op_of child connect ec res c = Child.on_connect ec c
complete_op_of child handshake ec res c = Child.on_handshake ec c
complete_op_of child (write req) ec res c = Child.on_write ec c
complete_op_of child read ec res c = Child.on_read ec res c
complete_op_of child shut_down ec res c = Child.on_shutdown ec c

-- The completion of the first outstanding operation; `none` if there is none.
unfoldable pub complete_of : Class → List Operation → ErrorCode → Bytes → Client → Option Client
unfolding complete_op_of
complete_of k [] ec res c = none
complete_of k (op ∷ rest) ec res c =
    some (complete_op_of k op ec res (record c { outstanding = rest }))

unfoldable pub step_of : Class → ErrorCode × Bytes → Client → Option Client
unfolding complete_of
step_of k (ec, res) c = complete_of k c.outstanding ec res c

abbrev pub complete_all_of : Class → List (ErrorCode × Bytes) → Client → Option Client
complete_all_of k es c = run_all (step_of k) es c

new_of-alike : (k : Class) → new_of k ≡ new_client
unfolding new_of new_client Master.new_master Child.new_child
new_of-alike signing = refl
new_of-alike master = refl
new_of-alike child = refl

run_of-alike :
    (k : Class) (version_string : Bytes) (sni : Option ErrorCode) (host port target : Bytes)
    (version : ℕ) (c : Client)
    → run_of k version_string sni host port target version c
      ≡ Signing.run version_string sni host port target version c
unfolding run_of Signing.run Master.run Child.run
run_of-alike signing version_string sni host port target version c = refl
run_of-alike master version_string none host port target version c = refl
run_of-alike master version_string (some ec) host port target version c = refl
run_of-alike child version_string none host port target version c = refl
run_of-alike child version_string (some ec) host port target version c = refl

complete_op_of-alike :
    (k : Class) (op : Operation) (ec : ErrorCode) (res : Bytes) (c : Client)
    → complete_op_of k op ec res c ≡ complete_op op ec res c
unfolding complete_op_of complete_op Signing.on_resolve Signing.on_connect Signing.on_handshake
    Signing.on_write Signing.on_read Signing.on_shutdown Master.on_resolve Master.on_connect
    Master.on_handshake Master.on_write Master.on_read Master.on_shutdown Child.on_resolve
    Child.on_connect Child.on_handshake Child.on_write Child.on_read Child.on_shutdown
complete_op_of-alike signing op ec res c = refl
complete_op_of-alike master (resolve host port) ec res c = refl
complete_op_of-alike master connect ec res c = refl
complete_op_of-alike master handshake ec res c = refl
complete_op_of-alike master (write req) ec res c = refl
complete_op_of-alike master read ec res c = refl
complete_op_of-alike master shut_down ec res c = refl
complete_op_of-alike child (resolve host port) ec res c = refl
complete_op_of-alike child connect ec res c = refl
complete_op_of-alike child handshake ec res c = refl
complete_op_of-alike child (write req) ec res c = refl
complete_op_of-alike child read ec res c = refl
complete_op_of-alike child shut_down ec res c = refl

complete_of-alike :
    (k : Class) (ops : List Operation) (ec : ErrorCode) (res : Bytes) (c : Client)
    → complete_of k ops ec res c ≡ complete ops ec res c
unfolding complete_of complete
complete_of-alike k [] ec res c = refl
complete_of-alike k (op ∷ rest) ec res c =
    ap some (complete_op_of-alike k op ec res (record c { outstanding = rest }))

step_of-alike : (k : Class) → step_of k ≡ step
unfolding step_of step
step_of-alike k = fun_ext (λ e. fun_ext (λ c. complete_of-alike k c.outstanding e.0 e.1 c))

-- A client of this class that has been run.
abbrev pub launched : Class → Bytes → Option ErrorCode → Bytes → Bytes → Bytes → ℕ → Client
launched k version_string sni host port target version =
    run_of k version_string sni host port target version (new_of k)

launched-alike :
    (k : Class) (version_string : Bytes) (sni : Option ErrorCode) (host port target : Bytes)
    (version : ℕ)
    → launched k version_string sni host port target version
      ≡ Signing.run version_string sni host port target version new_client
launched-alike k version_string sni host port target version =
    run_of-alike k version_string sni host port target version (new_of k)
    ∙ ap (Signing.run version_string sni host port target version) (new_of-alike k)

-- Every run of a client ends, whichever of the three classes it is of: at most six of its operations
-- complete, and as long as it has not ended, its next operation can complete, with any error code
-- and any response. At its end nothing is outstanding, and it has printed one response and logged
-- nothing, or has logged one failure.
pub complete_all_of-ends :
    (k : Class) (version_string : Bytes) (sni : Option ErrorCode) (host port target : Bytes)
    (version : ℕ) (es : List (ErrorCode × Bytes)) (c : Client) (ec : ErrorCode) (res : Bytes)
    → complete_all_of k es (launched k version_string sni host port target version) ≡ some c
    → (length es ≤ 6) × (Ended c ⊎ ((c' : Client) × (step_of k (ec, res) c ≡ some c')))
complete_all_of-ends k version_string sni host port target version es c ec res h =
    rw (step_of-alike k) (
      complete_all-ends version_string sni host port target version es c ec res
        (rw (← step_of-alike k, ← launched-alike k version_string sni host port target version) h))
