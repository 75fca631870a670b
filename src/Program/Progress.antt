-- ===== src/Program/Progress.antt =====
-- What a connection of the program can do (src/c++/systemicai/http/server/service.hpp, server.cpp and
-- sessions.hpp), whatever the service and the other connections have done.
use advanced_flex_server.Common.{true, false, List, some, ◌≡◌, Bytes}
use advanced_flex_server.PropertyTree.{PropertyTree}
use advanced_flex_server.Logging.{Logging}
use advanced_flex_server.Session.{Kind}
use advanced_flex_server.Session.Wire.{Wire, Event, start, deliver_all}
use advanced_flex_server.Detector.{Launch}
use advanced_flex_server.Listener.{Listener}
use advanced_flex_server.Service.{Service, IoContext}
use advanced_flex_server.Server.{Shared, Server, context}
use advanced_flex_server.Program.{Program, at_work}

-- A thread is in the `run` of a context that is not stopped and has a listener.
abbrev pub IsOpen : Program → Type 0
IsOpen pr =
    (io : IoContext) × (l : Listener) × (pr.service.ioc ≡ some io)
    × (io.stopped ≡ false)
    × (io.listener ≡ some l)
    × (at_work pr.service ≡ true)

-- Of a connection of the program, the HTTP session has run from its beginning.
abbrev Began : Shared → Launch → Wire → Type 0
Began sh launch w =
    (kind : Kind) × (buffer : Bytes) × (es : List Event) × (deliver_all (context sh launch) es
        (start kind buffer)
      ≡ some w)
