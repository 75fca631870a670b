-- ===== src/Certificate/Loading.antt =====
-- What src/c++/systemicai/common/certificate.h does to an SSL context.
use advanced_flex_server.Common.{
  String, List, [], ◌∷◌, ◌++◌, Option, none, some, Bytes, ◌≡◌, ◌⊎◌, refl, Bool, Option-cases, inl,
  inr, if◌then◌else◌,
}
use advanced_flex_server.Certificate.{
  ContextCall, set_password_callback, set_options, use_certificate_chain, use_private_key,
  use_tmp_dh, SslContext, not_found, rejected, Outcome, check, file_stream, call, load_streams,
  load_files,
}

-- The calls that load a certificate, a key and parameters, with the answer to a password callback.
abbrev pub loading : String → Bytes → Bytes → Bytes → List ContextCall
loading password certificate key dh =
    set_password_callback password
    ∷ set_options
    ∷ use_certificate_chain certificate
    ∷ use_private_key key
    ∷ use_tmp_dh dh
    ∷ []

module _ (rejects : SslContext → ContextCall → Bool) where
  -- A row of calls, up to the first that is rejected.
  unfoldable pub call_all : List ContextCall → SslContext → Outcome
  call_all [] ctx = (ctx, none)
  call_all (c ∷ cs) ctx =
      let next = call_all cs (ctx ++ c ∷ []) in
      if rejects ctx c then (ctx, some (rejected c)) else next

  call-call_all :
      (c : ContextCall) (cs : List ContextCall) (ctx : SslContext)
      → call rejects c (call_all cs) ctx ≡ call_all (c ∷ cs) ctx
  unfolding call call_all
  call-call_all c cs ctx = refl

  streams_good :
      (certificate key dh : Bytes) (ctx : SslContext)
      → load_streams rejects
          (file_stream (some certificate))
          (file_stream (some key))
          (file_stream (some dh))
          ctx
        ≡ call_all (loading "Not Implemented" certificate key dh) ctx
  unfolding load_streams check file_stream call call_all
  streams_good certificate key dh ctx = refl

  -- From three files: if one of them cannot be opened, the first such, in the order certificate,
  -- key, parameters, is the path of the error, and no call is made on the context. Otherwise the
  -- five calls are made in their order with the contents of the files, up to the first that is
  -- rejected, and its exception is thrown.
  pub load_files-calls :
      (read : Bytes → Option Bytes) (certificate key dh : Bytes) (ctx : SslContext)
      → (read certificate ≡ none)
          × (load_files rejects read certificate key dh ctx ≡ (ctx, some (not_found certificate)))
        ⊎ (c : Bytes) × (read certificate ≡ some c)
          × ((read key ≡ none)
                × (load_files rejects read certificate key dh ctx ≡ (ctx, some (not_found key)))
              ⊎ (k : Bytes) × (read key ≡ some k)
                × ((read dh ≡ none)
                      × (load_files rejects read certificate key dh ctx
                          ≡ (ctx, some (not_found dh)))
                    ⊎ (d : Bytes) × (read dh ≡ some d)
                      × (load_files rejects read certificate key dh ctx
                          ≡ call_all (loading "Not Implemented" c k d) ctx)))
  unfolding load_files check file_stream
  load_files-calls read certificate key dh ctx = elim (Option-cases (read certificate)) [
    | inl missing ↦ inl (missing, rw missing refl)
    | inr (c, has_c) ↦ elim (Option-cases (read key)) [
      | inl missing ↦ inr (c, has_c, inl (missing, rw (has_c, missing) refl))
      | inr (k, has_k) ↦ elim (Option-cases (read dh)) [
        | inl missing ↦
            inr (c, has_c, inr (k, has_k, inl (missing, rw (has_c, has_k, missing) refl)))
        | inr (d, has_d) ↦ inr (
          c,
          has_c,
          inr (k, has_k, inr (d, has_d, rw (has_c, has_k, has_d) (streams_good c k d ctx))),
        )
      ]
    ]
  ]
