-- ===== src/KeyVault.antt =====
-- src/KeyVault.h and src/KeyVault.cpp: the daemon's key pair, and the opening of a sealed key. The
-- functions of libsodium are a record.
use open_prlx.Prelude.{
  ℕ, ◌==◌, ◌+◌, not, if◌then◌else◌, Bool, true, false, Option, none, some, length, ◌>>=◌,
}
use open_prlx.Wire.{Bytes}
use open_prlx.ControlServer.{Vault}

-- Whether sodium_init and sodium_malloc succeed, and what crypto_box_keypair gives;
-- sodium_bin2base64 and, of a text for a buffer of a size, sodium_base642bin; and crypto_box_seal,
-- whose randomness is its first argument, and crypto_box_seal_open.
pub record Sodium : Type 0 where
  pub init : Bool
  pub malloc : Bool
  pub keypair : Bytes × Bytes
  pub bin2base64 : Bytes → Bytes
  pub base642bin : Bytes → ℕ → Option Bytes
  pub seal : Bytes → Bytes → Bytes → Bytes
  pub seal_open : Bytes → Bytes → Bytes → Option Bytes

-- `sk` is none for a null pointer.
pub record KeyVault : Type 0 where
  pub pk : Bytes
  pub sk : Option Bytes

-- The constructor. `memory` is what the array `pk_` has before anything is written to it.
unfoldable pub new_key_vault : Sodium → Bytes → KeyVault
new_key_vault sodium memory =
    if not sodium.init
    then record { pk = memory; sk = none }
    else if not sodium.malloc
    then record { pk = memory; sk = none }
    else record { pk = sodium.keypair.0; sk = some sodium.keypair.1 }

-- The destructor: the memory of the secret key is unlocked and freed.
unfoldable pub destroy : KeyVault → KeyVault
destroy vault = record vault { sk = none }

unfoldable pub ok : KeyVault → Bool
ok vault = elim vault.sk [ none ↦ false | some sk ↦ true ]

unfoldable pub pubkey_base64 : Sodium → KeyVault → Bytes
pubkey_base64 sodium vault = sodium.bin2base64 vault.pk

unfoldable pub open_sealed_base64 : Sodium → KeyVault → Bytes → Option Bytes
open_sealed_base64 sodium vault b64 = do
  sk ← vault.sk
  sealed ← sodium.base642bin b64 (length b64)
  if not (length sealed == 48 + 64) then none else sodium.seal_open sealed vault.pk sk

-- What the control server asks the vault.
unfoldable pub vault_of : Sodium → KeyVault → Vault
vault_of sodium vault = record {
  ok = ok vault;
  open_sealed = open_sealed_base64 sodium vault;
  pubkey = pubkey_base64 sodium vault;
}
