-- ===== src/ServerSettings/Sample.antt =====
-- The default settings of src/c++/systemicai/http/server/settings.h, for the tests.
use advanced_flex_server.Common.{codes, pos}
use advanced_flex_server.ServerSettings.{Settings}

abbrev pub default_settings : Settings
default_settings = record {
  interface_address = codes "127.0.0.1";
  interface_port = 8080;
  document_root = codes "html";
  log_level = codes "info";
  service_version = codes "alpha";
  ssl_certificate = codes "cfg/dumb.cert";
  ssl_key = codes "cfg/dumb.key";
  ssl_dh = codes "cfg/dumb.dh";
  thread_io = pos 1;
  timeout_header = 5;
  timeout_get = 300;
  timeout_put = 300;
  timeout_post = 300;
}
