-- ===== src/Certificate/Tests.antt =====
-- Loading of src/c++/systemicai/common/certificate.h at concrete files.
use advanced_flex_server.Common.{[], Option, none, some, Bytes, ◌≡◌, ◌⊎◌, codes, Bool, true, false}
use advanced_flex_server.Certificate.{
  ContextCall, use_private_key, SslContext, not_found, IStream, load_files, load_streams,
}
use advanced_flex_server.Certificate.Loading.{loading, call_all, load_files-calls}
use advanced_flex_server.Certificate.Streams.{stages, Stopped, load_streams-Stopped}

-- Each file holds its own name, and no private key is accepted.
abbrev own_name : Bytes → Option Bytes
own_name path = some path

abbrev no_key : SslContext → ContextCall → Bool
no_key ctx (use_private_key key) = true
no_key ctx c = false

load_files-calls_example :
    (own_name (codes "a.cert") ≡ none)
      × (load_files no_key own_name (codes "a.cert") (codes "a.key") (codes "a.dh") []
          ≡ ([], some (not_found (codes "a.cert"))))
    ⊎ (c : Bytes) × (own_name (codes "a.cert") ≡ some c)
      × ((own_name (codes "a.key") ≡ none)
            × (load_files no_key own_name (codes "a.cert") (codes "a.key") (codes "a.dh") []
                ≡ ([], some (not_found (codes "a.key"))))
          ⊎ (k : Bytes) × (own_name (codes "a.key") ≡ some k)
            × ((own_name (codes "a.dh") ≡ none)
                  × (load_files no_key own_name (codes "a.cert") (codes "a.key") (codes "a.dh") []
                      ≡ ([], some (not_found (codes "a.dh"))))
                ⊎ (d : Bytes) × (own_name (codes "a.dh") ≡ some d)
                  × (load_files no_key own_name (codes "a.cert") (codes "a.key") (codes "a.dh") []
                      ≡ call_all no_key (loading "Not Implemented" c k d) [])))
load_files-calls_example =
    load_files-calls no_key own_name (codes "a.cert") (codes "a.key") (codes "a.dh") []

-- A stream with its name in it.
abbrev named : Bytes → IStream
named name = record { is_good = true; rest = name }

abbrev bad_stream : IStream
bad_stream = record { is_good = false; rest = [] }

load_streams-Stopped_example :
    Stopped no_key
      (stages (named (codes "a.cert")) (named (codes "a.key")) bad_stream)
      []
      (load_streams no_key (named (codes "a.cert")) (named (codes "a.key")) bad_stream [])
load_streams-Stopped_example =
    load_streams-Stopped no_key (named (codes "a.cert")) (named (codes "a.key")) bad_stream []
