-- ===== src/Certificate/Streams.antt =====
-- How far `load` of src/c++/systemicai/common/certificate.h gets with three streams.
use advanced_flex_server.Common.{
  String, Bool, true, false, List, [], ◌∷◌, ◌++◌, map, Option, none, some, ◌≡◌, ◌⊎◌, inl, inr, refl,
  sym, ap, ◌∙◌, arith, Bool-cases, not, append_assoc, append-nil, if◌then◌else◌,
}
use advanced_flex_server.Certificate.{
  ContextCall, set_password_callback, set_options, use_certificate_chain, use_private_key,
  use_tmp_dh, SslContext, LoadError, invalid_stream, rejected, IStream, Outcome, check, call,
  load_streams,
}

-- A call on the context, with the stream's state that is checked before it and the text of the
-- exception that follows where this is not good.
pub record Stage : Type 0 where
  pub good : Bool
  pub text : String
  pub operation : ContextCall

-- The calls of `load`, and what is checked before each.
abbrev pub stages : IStream → IStream → IStream → List Stage
stages cs ks ds =
    record { good = true; text = ""; operation = set_password_callback "Not Implemented" }
    ∷ record { good = true; text = ""; operation = set_options }
    ∷ record {
      good = cs.is_good;
      text = "istream_ssl_certificate is invalid";
      operation = use_certificate_chain cs.rest;
    }
    ∷ record {
      good = ks.is_good;
      text = "istream_ssl_key is invalid";
      operation = use_private_key ks.rest;
    }
    ∷ record {
      good = ds.is_good;
      text = "istream_ssl_dh is invalid";
      operation = use_tmp_dh ds.rest;
    }
    ∷ []

abbrev pub operations : List Stage → List ContextCall
operations ss = map (λ (s : Stage). s.operation) ss

module _ (rejects : SslContext → ContextCall → Bool) where
  -- Why the next stage has not been passed, on this context; if there is none, nothing was thrown.
  abbrev pub Cause : SslContext → List Stage → Option LoadError → Type 0
  Cause ctx [] thrown = thrown ≡ none
  Cause ctx (s ∷ later) thrown =
      ((s.good ≡ false) × (thrown ≡ some (invalid_stream s.text)))
      ⊎ (s.good ≡ true) × (rejects ctx s.operation ≡ true) × (thrown ≡ some (rejected s.operation))

  -- Each of these stages is passed: its stream is good, and its call accepted on the context that the
  -- calls before it leave.
  abbrev pub Accepted : SslContext → List Stage → Type 0
  Accepted ctx [] = Unit {0}
  Accepted ctx (s ∷ ss) =
      (s.good ≡ true) × (rejects ctx s.operation ≡ false) × Accepted (ctx ++ s.operation ∷ []) ss

  -- Stages that were passed, and why the others were not.
  abbrev pub Stopped : List Stage → SslContext → Outcome → Type 0
  Stopped ss ctx outcome =
      (passed later : List Stage) × (ss ≡ passed ++ later)
      × Accepted ctx passed
      × (outcome.0 ≡ ctx ++ operations passed)
      × Cause outcome.0 later outcome.1

  -- Stage after stage.
  pass : List Stage → SslContext → Outcome
  pass [] ctx = (ctx, none)
  pass (s ∷ ss) ctx =
      let next = pass ss (ctx ++ s.operation ∷ []) in
      if not s.good
      then (ctx, some (invalid_stream s.text))
      else if rejects ctx s.operation
      then (ctx, some (rejected s.operation))
      else next

  pass-bad :
      (s : Stage) (ss : List Stage) (ctx : SslContext)
      → s.good ≡ false
      → pass (s ∷ ss) ctx ≡ (ctx, some (invalid_stream s.text))
  unfolding pass
  pass-bad s ss ctx bad = ground arith

  pass-refused :
      (s : Stage) (ss : List Stage) (ctx : SslContext)
      → s.good ≡ true
      → rejects ctx s.operation ≡ true
      → pass (s ∷ ss) ctx ≡ (ctx, some (rejected s.operation))
  unfolding pass
  pass-refused s ss ctx good refused = ground arith

  pass-taken :
      (s : Stage) (ss : List Stage) (ctx : SslContext)
      → s.good ≡ true
      → rejects ctx s.operation ≡ false
      → pass (s ∷ ss) ctx ≡ pass ss (ctx ++ s.operation ∷ [])
  unfolding pass
  pass-taken s ss ctx good taken = ground arith

  pass-Stopped : (ss : List Stage) (ctx : SslContext) → Stopped ss ctx (pass ss ctx)
  unfolding pass
  pass-Stopped [] ctx = ([], [], refl, tt, sym (append-nil ctx), refl)
  pass-Stopped (s ∷ ss) ctx =
      let before = sym (append-nil ctx) in
      elim (Bool-cases s.good) [
        | inr bad ↦ rw (pass-bad s ss ctx bad) ([], s ∷ ss, refl, tt, before, inl (bad, refl))
        | inl good ↦ elim (Bool-cases (rejects ctx s.operation)) [
          | inl refused ↦
              rw (pass-refused s ss ctx good refused)
                ([], s ∷ ss, refl, tt, before, inr (good, refused, refl))
          | inr taken ↦
              let (passed, later, split, all, made, cause) =
                pass-Stopped ss (ctx ++ s.operation ∷ []) in
              rw (pass-taken s ss ctx good taken) (
                s ∷ passed,
                later,
                ap (◌∷◌ s) split,
                (good, taken, all),
                made ∙ append_assoc ctx (s.operation ∷ []) (operations passed),
                cause,
              )
        ]
      ]

  load_streams-pass :
      (cs ks ds : IStream) (ctx : SslContext)
      → load_streams rejects cs ks ds ctx ≡ pass (stages cs ks ds) ctx
  unfolding load_streams check call pass
  load_streams-pass cs ks ds ctx = refl

  -- From three streams: the password callback, the options, the certificate chain, the private key
  -- and the parameters are set on the context in this order, the last three each after a look at
  -- their stream. It ends before the first of them whose stream is not good, or whose call is
  -- rejected, with the exception of that: the stream of each one before is good, and its call was
  -- accepted and has been made on the context. Nothing is thrown only if all five have been made.
  pub load_streams-Stopped :
      (cs ks ds : IStream) (ctx : SslContext)
      → Stopped (stages cs ks ds) ctx (load_streams rejects cs ks ds ctx)
  load_streams-Stopped cs ks ds ctx =
      rw (load_streams-pass cs ks ds ctx) (pass-Stopped (stages cs ks ds) ctx)
