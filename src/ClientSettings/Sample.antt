-- ===== src/ClientSettings/Sample.antt =====
-- Settings of src/c++/systemicai/http/client/settings.h, for the tests.
use advanced_flex_server.Common.{codes, [], pos}
use advanced_flex_server.ClientSettings.{Settings}

abbrev pub stored : Settings
stored = record {
  interface_address = [];
  interface_port = 0;
  log_level = codes "debug";
  ssl_certificate = codes "a.cert";
  ssl_key = codes "a.key";
  ssl_dh = codes "a.dh";
  thread_io = pos 4;
  timeout_header = 7;
  timeout_get = 10;
  timeout_put = 20;
  timeout_post = 30;
  limit_history = 0;
}
