-- ===== src/Server/Sample.antt =====
-- What the sessions of src/c++/systemicai/http/server/sessions.hpp share, for the tests.
use advanced_flex_server.Common.{false, [], codes}
use advanced_flex_server.Handler.Sample.{sample_platform}
use advanced_flex_server.Server.{Shared}

abbrev pub shared : Shared
shared = record {
  platform = sample_platform;
  handlers = [];
  need_eof = λ res. false;
  version_string = codes "Beast";
  dangling = λ s. s;
}
