-- ===== src/Startup.antt =====
-- src/openprlx_main.cpp up to the supervisor's loop: the arguments, and the context they give.
pub mod Accepted
pub mod Sealed
mod Tests
use open_prlx.Prelude.{
  ℕ, zero, suc, ◌+◌, ◌-◌, ◌*◌, ◌^◌, ◌==◌, ◌||◌, ◌&&◌, not, if◌then◌else◌, ltb, leb, Bool, true,
  false, Option, none, some, List, [], ◌∷◌, ◌++◌, ℤ, pos, negsuc, sub_ℕ, take, drop, length,
  replicate, ascii, ◌>>=◌,
}
use open_prlx.Wire.{Bytes, same_bytes}
use open_prlx.Context.{
  Context, Codec, auto, idle, no_sets, is_valid_channel, is_valid_width, is_valid_port, parse_codec,
  set_session_config, request_start,
}
use open_prlx.ControlServer.Text.{skip_space, is_digit, digits}
use open_prlx.KeyVault.{Sodium}

-- The loop of `argVal`, on the arguments after the name of the program.
unfoldable pub find_value : List Bytes → Bytes → Bytes → Bytes
find_value [] key def = def
find_value (arg ∷ []) key def = def
find_value (arg ∷ next ∷ args) key def =
    let rest = find_value (next ∷ args) key def in if same_bytes key arg then next else rest

abbrev pub arg_val : List Bytes → Bytes → Bytes → Bytes
arg_val argv key def = find_value (drop 1 argv) key def

unfoldable pub any_is : List Bytes → Bytes → Bool
any_is [] key = false
any_is (arg ∷ args) key = same_bytes key arg || any_is args key

abbrev pub has_flag : List Bytes → Bytes → Bool
has_flag argv key = any_is (drop 1 argv) key

-- `std::stoi`: none is that it throws, as there is no digit or the number is no `int`.
abbrev pub in_int : Bool → Bytes → Option ℤ
in_int minus [] = none
in_int minus (c ∷ s) =
    let n = digits 0 (c ∷ s) in
    if not (is_digit c)
    then none
    else if minus
    then if leb n (2 ^ 31) then some (sub_ℕ 0 n) else none
    else if ltb n (2 ^ 31)
    then some (pos n)
    else none

abbrev pub after_sign : Bytes → Option ℤ
after_sign [] = none
after_sign (c ∷ s) =
    if c == 45 then in_int true s else if c == 43 then in_int false s else in_int false (c ∷ s)

unfoldable pub stoi : Bytes → Option ℤ
stoi s = after_sign (skip_space s)

pub record Settings : Type 0 where
  pub vidpid : Bytes
  pub channel : ℤ
  pub width : ℤ
  pub out_port : ℤ
  pub health_port : ℤ
  pub key : Bytes
  pub codec : Codec
  pub token : Bytes

abbrev pub same_int : ℤ → ℤ → Bool
same_int (pos m) (pos n) = m == n
same_int (negsuc m) (negsuc n) = m == n
same_int m n = false

-- `env` is OPENPRLX_CONTROL_TOKEN.
abbrev pub token_of : Bytes → Option Bytes → Bytes
token_of [] none = []
token_of [] (some env) = env
token_of (c ∷ token) env = c ∷ token

-- The checks of the ranges.
unfoldable pub in_ranges : ℤ → ℤ → ℤ → ℤ → Bool
in_ranges channel width out_port health_port =
    if not (is_valid_channel channel)
    then false
    else if not (is_valid_width width)
    then false
    else if not (is_valid_port out_port) || not (is_valid_port health_port)
    then false
    else not (same_int out_port health_port)

-- none is that the usage is shown, and 2 returned.
unfoldable pub read_settings : List Bytes → Option Bytes → Option Settings
read_settings argv env = do
  channel ← stoi (arg_val argv (ascii "--channel") (ascii "161"))
  width ← stoi (arg_val argv (ascii "--width") (ascii "0"))
  out_port ← stoi (arg_val argv (ascii "--out-port") (ascii "5600"))
  health_port ← stoi (arg_val argv (ascii "--health-port") (ascii "9301"))
  if not (in_ranges channel width out_port health_port)
      then none
      else some (record {
        vidpid = arg_val argv (ascii "--vidpid") [];
        channel = channel;
        width = width;
        out_port = out_port;
        health_port = health_port;
        key = arg_val argv (ascii "--key") (ascii "gs.key");
        codec = parse_codec (arg_val argv (ascii "--codec") (ascii "AUTO"));
        token = token_of (arg_val argv (ascii "--control-token") []) env;
      })

-- The members' initializers.
abbrev pub new_context : Context
new_context = record {
  out_port = pos 5600;
  codec_hint = auto;
  codec = auto;
  wifi_frame_count = 0;
  wfb_frame_count = 0;
  rtp_pkt_count = 0;
  rtp_payload_type = negsuc 0;
  ssrc = 0;
  described = false;
  sdp = no_sets;
  have_param_sets = false;
  capture_finished = false;
  state = idle;
  should_stop = false;
  last_error = [];
  session_cfg = record { vidpid = []; channel = pos 161; width = pos 0; key = ascii "gs.key" };
  reqs = record {
    start_pending = false;
    stop_pending = false;
    tune_pending = false;
    pending_channel = pos 0;
    pending_width = negsuc 0;
    key_pending = false;
    pending_key = replicate 64 0;
  };
}

-- The context as the supervisor's loop begins. With an adapter a start is requested.
unfoldable pub start_context : Settings → Context
start_context s =
    let ctx =
      set_session_config
        (record new_context { out_port = s.out_port; codec_hint = s.codec; codec = s.codec })
        (record { vidpid = s.vidpid; channel = s.channel; width = s.width; key = s.key }) in
    if length s.vidpid == 0 then ctx else request_start ctx

-- The names of the adapters as JSON.
abbrev pub list_names : List Bytes → Bytes
list_names [] = []
list_names (x ∷ []) = 34 ∷ (x ++ (34 ∷ []))
list_names (x ∷ y ∷ xs) = 34 ∷ (x ++ (34 ∷ 44 ∷ list_names (y ∷ xs)))

unfoldable pub list_text : List Bytes → Bytes
list_text xs = (91 ∷ list_names xs) ++ (93 ∷ [])

-- A read of `n` bytes of a file; none is that the file is not there, or is shorter.
abbrev pub fread : ℕ → Option Bytes → Option Bytes
fread n none = none
fread n (some file) = if ltb (length file) n then none else some (take n file)

-- What --seal-key prints; none is that 2 is returned. `files` are the files that can be read.
unfoldable pub seal_key : Sodium → Bytes → (Bytes → Option Bytes) → List Bytes → Option Bytes
seal_key sodium random files argv =
    let pk_b64 = arg_val argv (ascii "--seal-key") [] in
    if not sodium.init || (length pk_b64 == 0) then none else (do
      pk ← sodium.base642bin pk_b64 32
      key ←
          if not (length pk == 32)
          then none
          else fread 64 (files (arg_val argv (ascii "--key") (ascii "gs.key")))
      some (sodium.bin2base64 (sodium.seal random key pk)))

-- What `main` comes to: it returns a code, after it has printed a text, or it runs the supervisor.
pub data MainResult : Type 0 where
  exit : ℕ → MainResult
  print : Bytes → MainResult
  supervise : Settings → MainResult

abbrev pub or_exit : {A : Type 0} → (A → MainResult) → Option A → MainResult
or_exit f none = exit 2
or_exit f (some x) = f x

unfoldable pub start :
    Sodium → Bytes → (Bytes → Option Bytes) → List Bytes → List Bytes → Option Bytes → MainResult
start sodium random files dongles argv env =
    if length argv == 1
    then exit 2
    else if has_flag argv (ascii "--list-devices")
    then print (list_text dongles)
    else if has_flag argv (ascii "--seal-key")
    then or_exit print (seal_key sodium random files argv)
    else or_exit supervise (read_settings argv env)
