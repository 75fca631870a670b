-- ===== src/Handler/Registry.antt =====
-- The registered handlers of src/c++/systemicai/http/server/handlers/handler.hpp.
use advanced_flex_server.Common.{List, [], ◌∷◌, ◌≡◌, refl, Bytes}
use advanced_flex_server.ServerSettings.{Settings}
use advanced_flex_server.Handler.{
  Request, Response, Platform, HandlerFunction, default_handle_request, handle_request,
}

-- Whatever handlers are registered, none of them has an effect: each request is answered by the
-- default handler, from the document root of the settings and not from the one that is passed.
pub handle_request-default {ℓ} :
    {S : Type ℓ} (p : Platform) (handlers : List (HandlerFunction S)) (doc_root : Bytes)
    (req : Request) (send : Response → S → S) (s : Settings) (st : S)
    → handle_request p handlers doc_root req send s st
      ≡ default_handle_request p s.document_root req send s st
unfolding handle_request
handle_request-default p [] doc_root req send s st = refl
handle_request-default p (h ∷ hs) doc_root req send s st = refl
