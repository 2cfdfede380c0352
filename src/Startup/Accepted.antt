-- ===== src/Startup/Accepted.antt =====
-- What the arguments that src/openprlx_main.cpp accepts give.
use open_prlx.Prelude.{
  ◌≡◌, ◌≢◌, refl, sym, ap, subst, ◌∙◌, some-injective, Bool, true, false, not, ◌||◌, if◌then◌else◌,
  Option, none, some, List, [], ◌∷◌, ℤ, pos, negsuc, length, ascii, inl, ◌>>=◌, arith, ◌==◌,
}
use open_prlx.Wire.{Bytes}
use open_prlx.Context.{
  Context, is_valid_channel, is_valid_width, is_valid_port, set_session_config, request_start,
}
use open_prlx.ControlServer.{Vault, Server, Request}
use open_prlx.ControlServer.Routes.{handle}
use open_prlx.ControlServer.Answers.{IsSound}
use open_prlx.ControlServer.Effects.{handle-IsSound}
use open_prlx.KeyVault.{Sodium}
use open_prlx.Startup.{
  new_context, Settings, same_int, in_ranges, arg_val, stoi, read_settings, start_context, has_flag,
  list_text, seal_key, MainResult, exit, print, supervise, or_exit, start,
}

-- The settings that the checks let through.
pub record IsAccepted (s : Settings) : Type 0 where
  pub channel : is_valid_channel s.channel ≡ true
  pub width : is_valid_width s.width ≡ true
  pub out_port : is_valid_port s.out_port ≡ true
  pub health_port : is_valid_port s.health_port ≡ true
  pub apart : s.out_port ≢ s.health_port

same_int_refl : (z : ℤ) → same_int z z ≡ true
same_int_refl (pos n) = ground arith
same_int_refl (negsuc n) = ground arith

in_ranges-parts :
    (channel width out_port health_port : ℤ)
    → in_ranges channel width out_port health_port ≡ true
    → (is_valid_channel channel ≡ true)
      × (is_valid_width width ≡ true)
      × (is_valid_port out_port ≡ true)
      × (is_valid_port health_port ≡ true)
      × (same_int out_port health_port ≡ false)
unfolding in_ranges
in_ranges-parts channel width out_port health_port e =
    parts (is_valid_channel channel) (is_valid_width width) (is_valid_port out_port)
      (is_valid_port health_port) (same_int out_port health_port) e
  where
    parts :
        (a b c d f : Bool)
        → (if not a
            then false
            else if not b
            then false
            else if not c || not d
            then false
            else not f)
          ≡ true
        → (a ≡ true) × (b ≡ true) × (c ≡ true) × (d ≡ true) × (f ≡ false)
    parts true true true true false e = (refl, refl, refl, refl, refl)
    parts true true true true true e = absurd (cc e)
    parts true true true false f e = absurd (cc e)
    parts true true false d f e = absurd (cc e)
    parts true false c d f e = absurd (cc e)
    parts false b c d f e = absurd (cc e)

bind-some :
    {A B : Type 0} (o : Option A) (f : A → Option B) (y : B)
    → (o >>= f) ≡ some y
    → (x : A) × (f x ≡ some y)
bind-some none f y e = absurd (cc e)
bind-some (some x) f y e = (x, e)

if-some :
    {A : Type 0} (b : Bool) (x y : A)
    → (if not b then none else some x) ≡ some y
    → (b ≡ true) × (x ≡ y)
if-some true x y e = (refl, some-injective x y e)
if-some false x y e = absurd (cc e)

pub read_settings-IsAccepted :
    (argv : List Bytes) (env : Option Bytes) (s : Settings)
    → read_settings argv env ≡ some s
    → IsAccepted s
unfolding read_settings
read_settings-IsAccepted argv env s e =
    let (channel, e1) = bind-some (stoi (arg_val argv (ascii "--channel") (ascii "161"))) _ s e in
    let (width, e2) = bind-some (stoi (arg_val argv (ascii "--width") (ascii "0"))) _ s e1 in
    let (out_port, e3) =
      bind-some (stoi (arg_val argv (ascii "--out-port") (ascii "5600"))) _ s e2 in
    let (health_port, e4) =
      bind-some (stoi (arg_val argv (ascii "--health-port") (ascii "9301"))) _ s e3 in
    let (good, same) = if-some (in_ranges channel width out_port health_port) _ s e4 in
    let (a, b, c, d, f) = in_ranges-parts channel width out_port health_port good in
    subst IsAccepted same (record {
      channel = a;
      width = b;
      out_port = c;
      health_port = d;
      apart = λ g. absurd (cc (f, sym (ap (same_int out_port) g) ∙ same_int_refl out_port));
    })

start_context-IsSound : (s : Settings) → IsAccepted s → IsSound (start_context s)
unfolding start_context set_session_config request_start
start_context-IsSound s h = by_test (length s.vidpid == 0)
  where
    ctx : Context
    ctx =
        set_session_config
          (record new_context { out_port = s.out_port; codec_hint = s.codec; codec = s.codec })
          (record { vidpid = s.vidpid; channel = s.channel; width = s.width; key = s.key })

    by_test : (b : Bool) → IsSound (if b then ctx else request_start ctx)
    by_test true = record { channel = h.channel; width = h.width; tune = inl refl }
    by_test false = record { channel = h.channel; width = h.width; tune = inl refl }

-- The context after the server has handled requests, in turn.
abbrev pub handle_all : Vault → Server → Context → List (Option Request) → Context
handle_all vault server ctx [] = ctx
handle_all vault server ctx (req ∷ reqs) =
    let (next, answer) = handle vault server ctx req in handle_all vault next answer.0 reqs

handle_all-IsSound :
    (vault : Vault) (server : Server) (ctx : Context) (reqs : List (Option Request))
    → IsSound ctx
    → IsSound (handle_all vault server ctx reqs)
handle_all-IsSound vault server ctx [] h = h
handle_all-IsSound vault server ctx (req ∷ reqs) h =
    handle_all-IsSound vault (handle vault server ctx req).0 (handle vault server ctx req).1.0 reqs
      (handle-IsSound vault server ctx req h)

settings_of : Settings → MainResult → Settings
settings_of d (supervise s) = s
settings_of d (exit n) = d
settings_of d (print t) = d

supervise_some :
    (s : Settings) (o : Option Settings) → or_exit supervise o ≡ supervise s → o ≡ some s
unfolding settings_of
supervise_some s none e = absurd (cc e)
supervise_some s (some t) e = ap some (ap (settings_of s) e)

not_print : (s : Settings) (o : Option Bytes) → or_exit print o ≢ supervise s
not_print s none e = cc e
not_print s (some t) e = cc e

start-supervise :
    (sodium : Sodium) (random : Bytes) (files : Bytes → Option Bytes) (dongles argv : List Bytes)
    (env : Option Bytes) (s : Settings)
    → start sodium random files dongles argv env ≡ supervise s
    → read_settings argv env ≡ some s
unfolding start
start-supervise sodium random files dongles argv env s e =
    by_tests (length argv == 1) (has_flag argv (ascii "--list-devices"))
      (has_flag argv (ascii "--seal-key")) e
  where
    by_tests :
        (a b c : Bool)
        → (if a
            then exit 2
            else if b
            then print (list_text dongles)
            else if c
            then or_exit print (seal_key sodium random files argv)
            else or_exit supervise (read_settings argv env))
          ≡ supervise s
        → read_settings argv env ≡ some s
    by_tests true b c e = absurd (cc e)
    by_tests false true c e = absurd (cc e)
    by_tests false false true e = absurd (not_print s (seal_key sodium random files argv) e)
    by_tests false false false e = supervise_some s (read_settings argv env) e

-- If `main` comes to its supervisor, whatever its arguments were, then the channel and the width of
-- the session are in range, both ports are, and these differ; and the session's channel and width,
-- and those of a staged tune, are still in range after any sequence of requests to the control API.
pub start-IsSound :
    (sodium : Sodium) (random : Bytes) (files : Bytes → Option Bytes) (dongles argv : List Bytes)
    (env : Option Bytes) (s : Settings)
    → start sodium random files dongles argv env ≡ supervise s
    → IsAccepted s
      × ((vault : Vault) (server : Server) (reqs : List (Option Request))
          → IsSound (handle_all vault server (start_context s) reqs))
start-IsSound sodium random files dongles argv env s e =
    let r = start-supervise sodium random files dongles argv env s e in
    let h = read_settings-IsAccepted argv env s r in
    (
      h,
      λ vault server reqs.
          handle_all-IsSound vault server (start_context s) reqs (start_context-IsSound s h),
    )
