-- ===== src/ControlServer/Effects.antt =====
-- What a request to the control API can change.
use open_prlx.Prelude.{◌≡◌, ◌⊎◌, not, if◌then◌else◌, Bool, true, false, Option, none, some}
use open_prlx.Wire.{Bytes, same_bytes}
use open_prlx.Context.{Context}
use open_prlx.ControlServer.{
  Vault, Server, Request, Response, plain, authorized, handle_sdp, health,
}
use open_prlx.ControlServer.Routes.{
  route, handle, only, health_path, start_path, stop_path, tune_path, sdp_path, key_path,
  pubkey_path, get_method, post_method,
}
use open_prlx.ControlServer.Answers.{
  Answered, Answered-same, Answered-if, IsSound, handle_start-Answered, handle_tune-Answered,
  handle_key-Answered, stop-Answered,
}

only-Answered :
    (method : Bytes) (req : Request) (ctx : Context) (answer : Context × Response)
    → Answered ctx answer
    → Answered ctx (only method req ctx answer)
only-Answered method req ctx answer h =
    Answered-if (same_bytes req.method method) (λ _. h) (λ _. Answered-same ctx (plain 405))

route-Answered :
    (vault : Vault) (ctx : Context) (req : Request) → Answered ctx (route vault ctx req)
unfolding route
route-Answered vault ctx req =
    Answered-if (same_bytes req.path start_path)
      (λ _. only-Answered post_method req ctx _ (handle_start-Answered ctx req.body))
      λ _.
        Answered-if (same_bytes req.path stop_path)
          (λ _. only-Answered post_method req ctx _ (stop-Answered ctx))
          λ _.
            Answered-if (same_bytes req.path tune_path)
              (λ _. only-Answered post_method req ctx _ (handle_tune-Answered ctx req.body))
              λ _.
                Answered-if (same_bytes req.path sdp_path)
                  (λ _. only-Answered get_method req ctx _ (Answered-same ctx (handle_sdp ctx)))
                  λ _.
                    Answered-if (same_bytes req.path key_path)
                      (λ _.
                        only-Answered post_method req ctx _
                          (handle_key-Answered vault ctx req.body))
                      λ _.
                        Answered-if (same_bytes req.path pubkey_path)
                          (λ _. only-Answered get_method req ctx _ (Answered-same ctx _))
                          (λ _. Answered-same ctx (plain 404))

-- By the branches of a test, where the server stands beside the answer.
beside-if :
    {ctx : Context} (b : Bool) (x y : Server × (Context × Response))
    → Answered ctx x.1
    → Answered ctx y.1
    → Answered ctx (if b then x else y).1
beside-if true x y f g = f
beside-if false x y f g = g

pub handle-Answered :
    (vault : Vault) (server : Server) (ctx : Context) (req : Option Request)
    → Answered ctx (handle vault server ctx req).1
unfolding handle health
handle-Answered vault server ctx none = Answered-same ctx (plain 400)
handle-Answered vault server ctx (some req) =
    beside-if (not (authorized server req.headers req.query)) _ _ (Answered-same ctx (plain 401)) (
      beside-if (same_bytes req.path health_path) _ _
        (beside-if (same_bytes req.method get_method) _ _ (Answered-same ctx _)
          (Answered-same ctx (plain 405)))
        (route-Answered vault ctx req))

-- Whatever the request, its method, path and body, the response of the control API is 200 or 202, or
-- the request changes nothing of the shared context: no setting, no staged action, no key.
pub handle-refused :
    (vault : Vault) (server : Server) (ctx : Context) (req : Option Request)
    → ((handle vault server ctx req).1.1.code ≡ 200)
      ⊎ ((handle vault server ctx req).1.1.code ≡ 202)
      ⊎ ((handle vault server ctx req).1.0 ≡ ctx)
handle-refused vault server ctx req = (handle-Answered vault server ctx req).refused

-- In a context where the session's channel and width are in range, and those of a staged tune as
-- well, they are in range after any request to the control API.
pub handle-IsSound :
    (vault : Vault) (server : Server) (ctx : Context) (req : Option Request)
    → IsSound ctx
    → IsSound (handle vault server ctx req).1.0
handle-IsSound vault server ctx req = (handle-Answered vault server ctx req).sound
