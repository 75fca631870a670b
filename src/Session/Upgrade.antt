-- ===== src/Session/Upgrade.antt =====
-- The change to a WebSocket session in `on_read` of src/c++/systemicai/http/server/sessions.hpp.
use advanced_flex_server.Common.{
  ℕ, true, List, [], ◌∷◌, ◌++◌, none, some, ◌≡◌, refl, arith, Bytes, zero, suc,
}
use advanced_flex_server.Errors.{success}
use advanced_flex_server.Handler.{Request}
use advanced_flex_server.Session.{Kind, Context, released, on_read, upgrade}
use advanced_flex_server.Session.Wire.{
  Wire, Event, read_done, start, deliver, deliver_read, deliver_all,
}
use advanced_flex_server.Session.Schedules.{deliver_all-Inv}

module _ (ctx : Context) (req : Request) (buffer : Bytes) (w w' : Wire) where
  upgrade-at :
      (n : ℕ)
      → w.session.reads ≡ n
      → req.is_upgrade ≡ true
      → deliver_read ctx n success req buffer w ≡ some w'
      → (w'.session.stream ≡ released)
        × (w'.session.upgrades ≡ w.session.upgrades ++ req ∷ [])
        × (w'.session.timeout ≡ none)
        × (w'.session.writes ≡ w.session.writes)
        × (suc w'.session.reads ≡ w.session.reads)
        × (w'.session.handshakes ≡ w.session.handshakes)
  unfolding deliver_read on_read upgrade
  upgrade-at zero e up h = cc
  upgrade-at (suc n) e up h = ground arith

module _ (ctx : Context) (es : List Event) (kind : Kind) (buffer buffer' : Bytes) (w w' : Wire)
    (req : Request) (before : deliver_all ctx es (start kind buffer) ≡ some w)
    (up : req.is_upgrade ≡ true)
    (after : deliver ctx (read_done success req buffer') w ≡ some w') where
  moved :
      (w'.session.stream ≡ released)
      × (w'.session.upgrades ≡ w.session.upgrades ++ req ∷ [])
      × (w'.session.timeout ≡ none)
      × (w'.session.writes ≡ w.session.writes)
      × (suc w'.session.reads ≡ w.session.reads)
      × (w'.session.handshakes ≡ w.session.handshakes)
  unfolding deliver
  moved = upgrade-at ctx req buffer' w w' w.session.reads refl up after

  -- An upgrade request that is read while no response is queued moves the stream and the request to
  -- one WebSocket session, without a timeout, and leaves no operation of the HTTP session outstanding.
  pub upgrade_clean :
      w.session.items ≡ []
      → (w'.session.stream ≡ released)
        × (w'.session.upgrades ≡ w.session.upgrades ++ req ∷ [])
        × (w'.session.timeout ≡ none)
        × (w'.session.writes ≡ [])
        × (w'.session.reads ≡ 0)
        × (w'.session.handshakes ≡ 0)
  upgrade_clean empty = ground (arith, moved, deliver_all-Inv ctx es kind buffer w before)
