-- ===== src/Certificate.antt =====
-- Loading the certificate, the key and the parameters of an SSL context
-- (src/c++/systemicai/common/certificate.h). The context is the list of the calls that were made on
-- it. Whether it rejects a call, by an exception, and what can be read at a path are parameters.
pub mod Loading
pub mod Streams
mod Tests
use advanced_flex_server.Common.{
  String, Bool, true, false, List, [], ◌∷◌, ◌++◌, Option, none, some, Bytes, if◌then◌else◌, not,
}

pub data ContextCall : Type 0 where
  -- With the text that the callback answers.
  set_password_callback : String → ContextCall
  -- default_workarounds, no_sslv2 and single_dh_use.
  set_options : ContextCall
  use_certificate_chain use_private_key use_tmp_dh : Bytes → ContextCall

abbrev pub SslContext : Type 0
SslContext = List ContextCall

-- `not_found` is the filesystem_error with this path, `invalid_stream` the system_error with this
-- text, `rejected` what a call on the context throws.
pub data LoadError : Type 0 where
  not_found : Bytes → LoadError
  invalid_stream : String → LoadError
  rejected : ContextCall → LoadError

-- An input stream: whether it is in a good state, and the bytes that are left in it.
pub record IStream : Type 0 where
  pub is_good : Bool
  pub rest : Bytes

-- The context, and the exception that was thrown, if any.
abbrev pub Outcome : Type 0
Outcome = SslContext × Option LoadError

-- `throw` if the stream is not good.
unfoldable pub check : Bool → LoadError → (SslContext → Outcome) → SslContext → Outcome
check good error next ctx = if not good then (ctx, some error) else next ctx

-- A file, as far as it can be opened.
unfoldable pub file_stream : Option Bytes → IStream
file_stream none = record { is_good = false; rest = [] }
file_stream (some contents) = record { is_good = true; rest = contents }

module _ (rejects : SslContext → ContextCall → Bool) where
  -- A call on the context.
  unfoldable pub call : ContextCall → (SslContext → Outcome) → SslContext → Outcome
  call c next ctx = if rejects ctx c then (ctx, some (rejected c)) else next (ctx ++ c ∷ [])

  -- `load` from three streams.
  unfoldable pub load_streams : IStream → IStream → IStream → SslContext → Outcome
  unfolding call check
  load_streams cs ks ds = call (set_password_callback "Not Implemented") (
      call set_options (
        check cs.is_good (invalid_stream "istream_ssl_certificate is invalid") (
          call (use_certificate_chain cs.rest) (
            check ks.is_good (invalid_stream "istream_ssl_key is invalid") (
              call (use_private_key ks.rest) (
                check ds.is_good (invalid_stream "istream_ssl_dh is invalid")
                  (call (use_tmp_dh ds.rest) (λ ctx. (ctx, none)))))))))

  -- `load` from three paths; `read` is what a file holds, if it can be opened.
  unfoldable pub load_files : (Bytes → Option Bytes) → Bytes → Bytes → Bytes → SslContext → Outcome
  unfolding load_streams check file_stream
  load_files read certificate key dh =
      let cs = file_stream (read certificate) in
      let ks = file_stream (read key) in
      let ds = file_stream (read dh) in
      check cs.is_good (not_found certificate)
        (check ks.is_good (not_found key) (check ds.is_good (not_found dh) (load_streams cs ks ds)))
