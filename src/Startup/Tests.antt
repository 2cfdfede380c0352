-- ===== src/Startup/Tests.antt =====
-- Arguments of the daemon, and a sealed key.
use open_prlx.Prelude.{
  ◌+◌, ◌-◌, ◌≡◌, refl, ap, ◌∙◌, true, if◌then◌else◌, Option, none, some, List, [], ◌∷◌, ◌++◌, pos,
  length, length-append, replicate, take, drop, leb, if_true, ascii, arith,
}
use open_prlx.Wire.{Bytes, same_bytes}
use open_prlx.Context.{
  h265, parse_codec, is_valid_channel, is_valid_width, is_valid_port, request_key, take_key,
}
use open_prlx.ControlServer.{Vault, Server, Request, plain, handle_key}
use open_prlx.ControlServer.Answers.{IsSound}
use open_prlx.ControlServer.Search.{Lacks}
use open_prlx.ControlServer.Text.{skip_space, is_digit, digits}
use open_prlx.KeyVault.{Sodium, new_key_vault, ok, pubkey_base64, vault_of}
use open_prlx.Startup.{
  Settings, find_value, stoi, in_ranges, read_settings, new_context, start_context, seal_key, start,
  any_is,
}
use open_prlx.Startup.Accepted.{IsAccepted, handle_all, start-IsSound}
use open_prlx.Startup.Sealed.{IsSodium, sealed_body, handle_key-seal_key}

abbrev arguments : List Bytes
arguments =
    ascii "openprlx"
    ∷ ascii "--channel"
    ∷ ascii "36"
    ∷ ascii "--vidpid"
    ∷ ascii "0bda:8812"
    ∷ ascii "--codec"
    ∷ ascii "hevc"
    ∷ []

abbrev settings : Settings
settings = record {
  vidpid = ascii "0bda:8812";
  channel = pos 36;
  width = pos 0;
  out_port = pos 5600;
  health_port = pos 9301;
  key = ascii "gs.key";
  codec = h265;
  token = ascii "secret";
}

-- A library for the runs: a code that shifts each byte, and a seal that only fills up.
abbrev shift : Bytes → Bytes
shift [] = []
shift (b ∷ bs) = (b + 65) ∷ shift bs

abbrev shift_back : Bytes → Bytes
shift_back [] = []
shift_back (b ∷ bs) = (b - 65) ∷ shift_back bs

abbrev sodium : Sodium
sodium = record {
  init = true;
  malloc = true;
  keypair = (replicate 32 7, replicate 32 9);
  bin2base64 = shift;
  base642bin = λ text n. if leb (length text) n then some (shift_back text) else none;
  seal = λ random m pk. replicate 48 0 ++ m;
  seal_open = λ sealed pk sk. some (drop 48 sealed);
}

start-IsSound_example :
    IsAccepted settings
    × ((vault : Vault) (server : Server) (reqs : List (Option Request))
        → IsSound (handle_all vault server (start_context settings) reqs))
unfolding start any_is read_settings stoi find_value skip_space is_digit digits in_ranges
    parse_codec same_bytes is_valid_channel is_valid_width is_valid_port
start-IsSound_example =
    start-IsSound sodium [] (λ name. none) [] arguments (some (ascii "secret")) settings refl

length-shift : (raw : Bytes) → length (shift raw) ≡ length raw
length-shift [] = refl
length-shift (b ∷ bs) = omega (arith, length-shift bs)

shift_back-shift : (raw : Bytes) → shift_back (shift raw) ≡ raw
shift_back-shift [] = refl
shift_back-shift (b ∷ bs) = rw (shift_back-shift bs) (ap (λ c. c ∷ bs) add_sub)
  where
    add_sub : b + 65 - 65 ≡ b
    add_sub = omega arith

shift-Lacks : (raw : Bytes) → Lacks 34 (shift raw)
shift-Lacks [] = tt
shift-Lacks (b ∷ bs) = ((λ e. absurd (omega (arith, e))), shift-Lacks bs)

sodium-IsSodium : IsSodium sodium
sodium-IsSodium = record {
  decodes = λ raw n h.
      if_true {b = leb (length (shift raw)) n} (some (shift_back (shift raw))) none
        (ground (arith, h, length-shift raw))
      ∙ ap some (shift_back-shift raw);
  longer = λ raw. omega (arith, length-shift raw);
  no_quote = shift-Lacks;
  pk_size = refl;
  sealed_size = λ random m pk. omega (arith, length-append (replicate 48 0) m);
  opens = λ random m. refl;
}

abbrev sealing : List Bytes
sealing = ascii "openprlx" ∷ ascii "--seal-key" ∷ shift (replicate 32 7) ∷ []

-- A key file of 70 bytes.
abbrev file : Bytes
file = replicate 70 5

handle_key-seal_key_example :
    (text : Bytes) × (seal_key sodium [] (λ name. some file) sealing ≡ some text)
    × (handle_key (vault_of sodium (new_key_vault sodium [])) new_context (sealed_body text)
        ≡ (request_key new_context (take 64 file), plain 202))
    × ((take_key (request_key new_context (take 64 file))).1 ≡ some (take 64 file))
unfolding ok new_key_vault pubkey_base64 find_value same_bytes
handle_key-seal_key_example =
    handle_key-seal_key sodium [] [] (λ name. some file) sealing file new_context sodium-IsSodium
      refl refl refl (omega arith)
