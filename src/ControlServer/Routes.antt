-- ===== src/ControlServer/Routes.antt =====
-- `handle` of src/ControlServer.h: the routes of the control API, and the methods that they answer.
use open_prlx.Prelude.{if◌then◌else◌, not, Option, none, some, [], ◌∷◌}
use open_prlx.Wire.{Bytes, same_bytes}
use open_prlx.Context.{Context, request_stop}
use open_prlx.ControlServer.{
  Vault, Server, Request, Response, health_of, pubkey_of, plain, authorized, handle_start,
  handle_tune, handle_sdp, handle_key, health,
}

-- The methods and paths, in ASCII.
abbrev pub get_method : Bytes
get_method = 71 ∷ 69 ∷ 84 ∷ []

abbrev pub post_method : Bytes
post_method = 80 ∷ 79 ∷ 83 ∷ 84 ∷ []

abbrev pub health_path : Bytes
health_path = 47 ∷ 104 ∷ 101 ∷ 97 ∷ 108 ∷ 116 ∷ 104 ∷ []

abbrev pub start_path : Bytes
start_path = 47 ∷ 115 ∷ 116 ∷ 97 ∷ 114 ∷ 116 ∷ []

abbrev pub stop_path : Bytes
stop_path = 47 ∷ 115 ∷ 116 ∷ 111 ∷ 112 ∷ []

abbrev pub tune_path : Bytes
tune_path = 47 ∷ 116 ∷ 117 ∷ 110 ∷ 101 ∷ []

abbrev pub sdp_path : Bytes
sdp_path = 47 ∷ 115 ∷ 100 ∷ 112 ∷ []

abbrev pub key_path : Bytes
key_path = 47 ∷ 107 ∷ 101 ∷ 121 ∷ []

abbrev pub pubkey_path : Bytes
pubkey_path = 47 ∷ 112 ∷ 117 ∷ 98 ∷ 107 ∷ 101 ∷ 121 ∷ []

-- A route answers one method only.
abbrev pub only : Bytes → Request → Context → Context × Response → Context × Response
only method req ctx answer = if same_bytes req.method method then answer else (ctx, plain 405)

-- The routes but /health.
unfoldable pub route : Vault → Context → Request → Context × Response
route vault ctx req =
    if same_bytes req.path start_path
    then only post_method req ctx (handle_start ctx req.body)
    else if same_bytes req.path stop_path
    then only post_method req ctx (request_stop ctx, plain 202)
    else if same_bytes req.path tune_path
    then only post_method req ctx (handle_tune ctx req.body)
    else if same_bytes req.path sdp_path
    then only get_method req ctx (ctx, handle_sdp ctx)
    else if same_bytes req.path key_path
    then only post_method req ctx (handle_key vault ctx req.body)
    else if same_bytes req.path pubkey_path
    then only get_method req ctx (ctx, record { code = 200; body = pubkey_of vault.pubkey })
    else (ctx, plain 404)

-- `none` is a request that could not be read.
unfoldable pub handle : Vault → Server → Context → Option Request → Server × (Context × Response)
handle vault server ctx none = (server, (ctx, plain 400))
handle vault server ctx (some req) =
    if not (authorized server req.headers req.query)
    then (server, (ctx, plain 401))
    else if same_bytes req.path health_path
    then if same_bytes req.method get_method
      then (let (polled, report) = health vault server ctx in
          (polled, (ctx, record { code = 200; body = health_of report })))
      else (server, (ctx, plain 405))
    else (server, route vault ctx req)
