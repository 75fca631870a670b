-- ===== src/Session/Wire.antt =====
-- A session of src/c++/systemicai/http/server/sessions.hpp on its connection: the completions of its
-- operations, in any order in which they may come, and what has gone over the connection.
use mathlib.Core.Option
use advanced_flex_server.Common.{
  ℕ, Bool, true, false, ◌||◌, List, [], ◌∷◌, ◌++◌, Option, none, some, Bytes, if◌then◌else◌, zero,
  suc, ◌≡◌, Holds, Holds-some, refl, run_all, run_all-keeps,
}
use advanced_flex_server.Errors.{ErrorCode, is_error}
use advanced_flex_server.Handler.{Request, Response}
use advanced_flex_server.Session.{
  Session, Kind, Context, new_session, run, on_read, on_write, on_handshake, on_shutdown,
}

-- The completions; a read leaves the buffer as the stream has left it.
pub data Event : Type 0 where
  read_done : ErrorCode → Request → Bytes → Event
  write_done : ErrorCode → Event
  handshake_done : ErrorCode → ℕ → Event
  shutdown_done : ErrorCode → Event

-- A session, the requests that it has answered, the responses written without an error, and whether
-- its reading has come to an end (by an error, the end of the stream or an upgrade).
pub record Wire : Type 0 where
  pub session : Session
  pub requests : List Request
  pub transmitted : List Response
  pub read_over : Bool

unfoldable pub start : Kind → Bytes → Wire
unfolding new_session run
start kind buffer = record {
  session = run (new_session kind buffer);
  requests = [];
  transmitted = [];
  read_over = false;
}

-- What a completed write leaves.
unfoldable pub note_write : ErrorCode → Response → Wire → Session → Wire
note_write ec res w ss = record w {
  session = ss;
  transmitted = if is_error ec then w.transmitted else w.transmitted ++ res ∷ [];
}

-- One completion. `none`: no such operation is outstanding, or the assertion of the queue fails. Any error
-- code may come with it: also success for a write on a stream that is shut down for sending or has
-- been moved away, which the code cannot have.
module _ (ctx : Context) where
  open ctx use {need_eof}

  unfoldable pub deliver_read : ℕ → ErrorCode → Request → Bytes → Wire → Option Wire
  unfolding on_read
  deliver_read zero ec req buffer w = none
  deliver_read (suc n) ec req buffer w =
      let over = is_error ec || req.is_upgrade in
      some (record w {
        session = on_read ctx ec req (record w.session { reads = n; buffer = buffer });
        requests = if over then w.requests else w.requests ++ req ∷ [];
        read_over = if over then true else w.read_over;
      })

  unfoldable pub deliver_write : List Response → ErrorCode → Wire → Option Wire
  unfolding on_write note_write
  deliver_write [] ec w = none
  deliver_write (res ∷ rest) ec w =
      Option.map (note_write ec res w)
        (on_write (need_eof res) ec (record w.session { writes = rest }))

  unfoldable pub deliver_handshake : ℕ → ErrorCode → ℕ → Wire → Option Wire
  unfolding on_handshake
  deliver_handshake zero ec bytes_used w = none
  deliver_handshake (suc n) ec bytes_used w = some (record w {
    session = on_handshake ec bytes_used (record w.session { handshakes = n });
    read_over = if is_error ec then true else w.read_over;
  })

  unfoldable pub deliver_shutdown : ℕ → ErrorCode → Wire → Option Wire
  unfolding on_shutdown
  deliver_shutdown zero ec w = none
  deliver_shutdown (suc n) ec w =
      some (record w { session = on_shutdown ec (record w.session { shutdowns = n }) })

  unfoldable pub deliver : Event → Wire → Option Wire
  unfolding deliver_read deliver_write deliver_handshake deliver_shutdown
  deliver (read_done ec req buffer) w = deliver_read w.session.reads ec req buffer w
  deliver (write_done ec) w = deliver_write w.session.writes ec w
  deliver (handshake_done ec n) w = deliver_handshake w.session.handshakes ec n w
  deliver (shutdown_done ec) w = deliver_shutdown w.session.shutdowns ec w

  -- The completions of a schedule, one after another.
  abbrev pub deliver_all : List Event → Wire → Option Wire
  deliver_all es w = run_all deliver es w

-- A property that each completion keeps, for the operation that is outstanding.
pub record Keeps (ctx : Context) (P : Wire → Type 0) : Type 0 where
  pub read :
      (n : ℕ) (ec : ErrorCode) (req : Request) (buffer : Bytes) (w : Wire)
      → w.session.reads ≡ suc n
      → P w
      → Holds P (deliver_read ctx (suc n) ec req buffer w)
  pub write :
      (res : Response) (rest : List Response) (ec : ErrorCode) (w : Wire)
      → w.session.writes ≡ res ∷ rest
      → P w
      → Holds P (deliver_write ctx (res ∷ rest) ec w)
  pub handshake :
      (n : ℕ) (ec : ErrorCode) (used : ℕ) (w : Wire)
      → w.session.handshakes ≡ suc n
      → P w
      → Holds P (deliver_handshake ctx (suc n) ec used w)
  pub shutdown :
      (n : ℕ) (ec : ErrorCode) (w : Wire)
      → w.session.shutdowns ≡ suc n
      → P w
      → Holds P (deliver_shutdown ctx (suc n) ec w)

module _ (ctx : Context) (P : Wire → Type 0) (k : Keeps ctx P) where
  keeps_read :
      (n : ℕ) (ec : ErrorCode) (req : Request) (buffer : Bytes) (w w' : Wire)
      → w.session.reads ≡ n
      → P w
      → deliver_read ctx n ec req buffer w ≡ some w'
      → P w'
  unfolding deliver_read
  keeps_read zero ec req buffer w w' e p h = cc
  keeps_read (suc n) ec req buffer w w' e p h = Holds-some P _ w' (k.read n ec req buffer w e p) h

  keeps_write :
      (writes : List Response) (ec : ErrorCode) (w w' : Wire)
      → w.session.writes ≡ writes
      → P w
      → deliver_write ctx writes ec w ≡ some w'
      → P w'
  unfolding deliver_write
  keeps_write [] ec w w' e p h = cc
  keeps_write (res ∷ rest) ec w w' e p h = Holds-some P _ w' (k.write res rest ec w e p) h

  keeps_handshake :
      (n : ℕ) (ec : ErrorCode) (used : ℕ) (w w' : Wire)
      → w.session.handshakes ≡ n
      → P w
      → deliver_handshake ctx n ec used w ≡ some w'
      → P w'
  unfolding deliver_handshake
  keeps_handshake zero ec used w w' e p h = cc
  keeps_handshake (suc n) ec used w w' e p h = Holds-some P _ w' (k.handshake n ec used w e p) h

  keeps_shutdown :
      (n : ℕ) (ec : ErrorCode) (w w' : Wire)
      → w.session.shutdowns ≡ n
      → P w
      → deliver_shutdown ctx n ec w ≡ some w'
      → P w'
  unfolding deliver_shutdown
  keeps_shutdown zero ec w w' e p h = cc
  keeps_shutdown (suc n) ec w w' e p h = Holds-some P _ w' (k.shutdown n ec w e p) h

  pub keeps_deliver : (e : Event) (w w' : Wire) → P w → deliver ctx e w ≡ some w' → P w'
  unfolding deliver
  keeps_deliver (read_done ec req buffer) w w' p h =
      keeps_read w.session.reads ec req buffer w w' refl p h
  keeps_deliver (write_done ec) w w' p h = keeps_write w.session.writes ec w w' refl p h
  keeps_deliver (handshake_done ec used) w w' p h =
      keeps_handshake w.session.handshakes ec used w w' refl p h
  keeps_deliver (shutdown_done ec) w w' p h = keeps_shutdown w.session.shutdowns ec w w' refl p h

  -- What each completion keeps, a schedule keeps.
  pub deliver_all_keeps :
      (es : List Event) (w w' : Wire) → P w → deliver_all ctx es w ≡ some w' → P w'
  deliver_all_keeps es w w' p h =
      run_all-keeps (deliver ctx) P (λ e s t. keeps_deliver e s t) es w w' p h
