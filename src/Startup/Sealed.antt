-- ===== src/Startup/Sealed.antt =====
-- A key that src/openprlx_main.cpp seals, the KeyVault opens and src/ControlServer.h stages.
use open_prlx.Prelude.{
  ℕ, ◌+◌, ◌≤◌, ◌≡◌, refl, ap, ◌∙◌, Bool, true, false, not, if◌then◌else◌, if_false, Option, none,
  some, List, [], ◌∷◌, ◌++◌, length, take, length-take, ascii, ◌>>=◌, ltb, arith, ◌==◌,
}
use open_prlx.Wire.{Bytes}
use open_prlx.Context.{Context, request_key, take_key}
use open_prlx.ControlServer.{plain, handle_key, sealed_field, Vault}
use open_prlx.ControlServer.Text.{find, json_after, json_find_string, quoted, skip_blanks, is_blank}
use open_prlx.ControlServer.Search.{Lacks, find_first, take_self}
use open_prlx.KeyVault.{
  Sodium, KeyVault, new_key_vault, ok, pubkey_base64, open_sealed_base64, vault_of,
}
use open_prlx.Startup.{arg_val, fread, seal_key}

-- What is documented of libsodium. Base64 gives a text at least as long as what it encodes, without
-- quotes, that is decoded to what it was in a buffer that is large enough; a public key has 32 bytes,
-- and a sealed message 48 more than the message, which the key pair opens.
pub record IsSodium (sodium : Sodium) : Type 0 where
  pub decodes :
      (raw : Bytes) (n : ℕ)
      → length raw ≤ n
      → sodium.base642bin (sodium.bin2base64 raw) n ≡ some raw
  pub longer : (raw : Bytes) → length raw ≤ length (sodium.bin2base64 raw)
  pub no_quote : (raw : Bytes) → Lacks 34 (sodium.bin2base64 raw)
  pub pk_size : length sodium.keypair.0 ≡ 32
  pub sealed_size : (random m pk : Bytes) → length (sodium.seal random m pk) ≡ length m + 48
  pub opens :
      (random m : Bytes)
      → sodium.seal_open (sodium.seal random m sodium.keypair.0) sodium.keypair.0 sodium.keypair.1
        ≡ some m

-- The body of a request with a sealed key.
abbrev pub sealed_body : Bytes → Bytes
sealed_body b64 = ascii "{\"sealed\":\"" ++ (b64 ++ ascii "\"}")

json_find_string-sealed_body :
    (b64 : Bytes) → Lacks 34 b64 → json_find_string (sealed_body b64) sealed_field ≡ some b64
unfolding json_find_string json_after quoted find skip_blanks is_blank
json_find_string-sealed_body b64 h =
    rw (find_first 34 b64 (125 ∷ []) h) (ap some (take_self b64 (34 ∷ 125 ∷ [])))

-- A vault that is ready has the key pair.
new_key_vault-ok :
    (sodium : Sodium) (memory : Bytes)
    → ok (new_key_vault sodium memory) ≡ true
    → (sodium.init ≡ true)
      × (new_key_vault sodium memory ≡ record { pk = sodium.keypair.0; sk = some sodium.keypair.1 })
unfolding new_key_vault ok
new_key_vault-ok sodium memory e = by_tests sodium.init sodium.malloc e
  where
    vault : Bool → Bool → KeyVault
    vault init malloc =
        if not init
        then record { pk = memory; sk = none }
        else if not malloc
        then record { pk = memory; sk = none }
        else record { pk = sodium.keypair.0; sk = some sodium.keypair.1 }

    by_tests :
        (init malloc : Bool)
        → elim (vault init malloc).sk [ none ↦ false | some sk ↦ true ] ≡ true
        → (init ≡ true)
          × (vault init malloc ≡ record { pk = sodium.keypair.0; sk = some sodium.keypair.1 })
    by_tests true true e = (refl, refl)
    by_tests true false e = absurd (cc e)
    by_tests false malloc e = absurd (cc e)

module _ (sodium : Sodium) (good : IsSodium sodium) where
  -- The sealed key of a file, for a vault that is ready.
  abbrev sealed_text : Bytes → Bytes → Bytes
  sealed_text random key = sodium.bin2base64 (sodium.seal random key sodium.keypair.0)

  open_sealed_base64-sealed_text :
      (random key : Bytes)
      → length key ≡ 64
      → open_sealed_base64 sodium
          (record { pk = sodium.keypair.0; sk = some sodium.keypair.1 })
          (sealed_text random key)
        ≡ some key
  unfolding open_sealed_base64
  open_sealed_base64-sealed_text random key size =
      let raw = sodium.seal random key sodium.keypair.0 in
      let long : (length raw == 48 + 64) ≡ true =
        ground (arith, size, good.sealed_size random key sodium.keypair.0) in
      rw (good.decodes raw (length (sealed_text random key)) (good.longer raw))
        (rw long (good.opens random key))

  seal_key-text :
      (random : Bytes) (files : Bytes → Option Bytes) (argv : List Bytes) (file : Bytes)
      → sodium.init ≡ true
      → arg_val argv (ascii "--seal-key") [] ≡ sodium.bin2base64 sodium.keypair.0
      → files (arg_val argv (ascii "--key") (ascii "gs.key")) ≡ some file
      → 64 ≤ length file
      → seal_key sodium random files argv ≡ some (sealed_text random (take 64 file))
  unfolding seal_key
  seal_key-text random files argv file init name there size =
      let pk = sodium.keypair.0 in
      let some_text : (length (sodium.bin2base64 pk) == 0) ≡ false =
        ground (arith, good.longer pk, good.pk_size) in
      let whole : (length pk == 32) ≡ true = ground (arith, good.pk_size) in
      let long : ltb (length file) 64 ≡ false = ground (arith, size) in
      rw (init, name, there)
        (if_false {b = length (sodium.bin2base64 pk) == 0} none _ some_text
          ∙ ap (λ o. o >>= after) (good.decodes pk 32 (omega (arith, good.pk_size)))
          ∙ rw (whole, long) refl)
    where
      after : Bytes → Option Bytes
      after pk = (if not (length pk == 32) then none else fread 64 (some file)) >>= λ key.
          some (sodium.bin2base64 (sodium.seal random key pk))

-- A sealed key that the vault opens is staged.
handle_key-sealed :
    (vault : Vault) (ctx : Context) (text key : Bytes)
    → vault.ok ≡ true
    → Lacks 34 text
    → 1 ≤ length text
    → vault.open_sealed text ≡ some key
    → handle_key vault ctx (sealed_body text) ≡ (request_key ctx key, plain 202)
unfolding handle_key
handle_key-sealed vault ctx [] key ready h size opens = absurd (omega (arith, size))
handle_key-sealed vault ctx (c ∷ s) key ready h size opens =
    rw (ready, json_find_string-sealed_body (c ∷ s) h, opens) refl

-- What is sealed by `--seal-key` with the public key that a ready vault publishes, from a key file of
-- 64 bytes or more, is accepted by POST /key: it is opened, whatever the randomness of the seal was, to
-- the 64 bytes of the file, and these are staged and taken by the capture thread.
pub handle_key-seal_key :
    (sodium : Sodium) (memory random : Bytes) (files : Bytes → Option Bytes) (argv : List Bytes)
    (file : Bytes) (ctx : Context)
    → IsSodium sodium
    → ok (new_key_vault sodium memory) ≡ true
    → arg_val argv (ascii "--seal-key") [] ≡ pubkey_base64 sodium (new_key_vault sodium memory)
    → files (arg_val argv (ascii "--key") (ascii "gs.key")) ≡ some file
    → 64 ≤ length file
    → (text : Bytes) × (seal_key sodium random files argv ≡ some text)
      × (handle_key (vault_of sodium (new_key_vault sodium memory)) ctx (sealed_body text)
          ≡ (request_key ctx (take 64 file), plain 202))
      × ((take_key (request_key ctx (take 64 file))).1 ≡ some (take 64 file))
unfolding handle_key vault_of pubkey_base64 ok take_key request_key
handle_key-seal_key sodium memory random files argv file ctx good ready name there size =
    let (init, pair) = new_key_vault-ok sodium memory ready in
    let key = take 64 file in
    let text = sealed_text sodium good random key in
    let key_size : length key ≡ 64 = omega (arith, length-take 64 file, size) in
    let long : length (sodium.seal random key sodium.keypair.0) ≡ length key + 48 =
      good.sealed_size random key sodium.keypair.0 in
    (
      text,
      seal_key-text sodium good random files argv file init
          (name ∙ ap (λ v. sodium.bin2base64 v.pk) pair) there size,
      handle_key-sealed (vault_of sodium (new_key_vault sodium memory)) ctx text key ready
          (good.no_quote _)
          (omega (arith, good.longer (sodium.seal random key sodium.keypair.0), long))
          (ap (λ v. open_sealed_base64 sodium v text) pair
            ∙ open_sealed_base64-sealed_text sodium good random key key_size),
      refl,
    )
