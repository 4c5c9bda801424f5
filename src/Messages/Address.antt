-- ===== src/Messages/Address.antt =====
-- `AddressPayload` from a script, of indexer-lib/src/database/messages/handshakes.rs. The
-- classification of scripts and the address versions are of the node's libraries.
use local_rusty_indexer_poc.Prelude.{
  ℕ, ◌-◌, [], ◌∷◌, ◌++◌, ltb, if◌then◌else◌, Result, ok, err, invalid_script, panicked, leb, length,
}
use local_rusty_indexer_poc.Bytes.{Bytes}
use local_rusty_indexer_poc.Keys.{AddressPayload}
use local_rusty_indexer_poc.Keys.Layout.{slice}

pub data ScriptClass : Type 0 where
  non_standard pub_key pub_key_ecdsa script_hash : ScriptClass

pub record ScriptPublicKey : Type 0 where
  pub version : ℕ
  pub script : Bytes

-- `ScriptClass::from_script`, `ScriptClass::version`, and `Version as u8` for the three kinds
pub record TxScript : Type 0 where
  pub from_script : ScriptPublicKey → ScriptClass
  pub class_version : ScriptClass → ℕ
  pub pub_key_version : ℕ
  pub pub_key_ecdsa_version : ℕ
  pub script_hash_version : ℕ

module _ (tx : TxScript) where
  open tx use {
    from_script, class_version, pub_key_version, pub_key_ecdsa_version, script_hash_version,
  }

  -- the `match` on the class; a script too short for its slice panics
  unfoldable pub payload_of : ScriptClass → Bytes → Result AddressPayload
  payload_of non_standard script = err invalid_script
  payload_of pub_key script =
      if leb 33 (length script)
      then ok (record {
        inverse_version = 255 - pub_key_version;
        payload = slice 1 32 script ++ 0 ∷ [];
      })
      else err panicked
  payload_of pub_key_ecdsa script =
      if leb 34 (length script)
      then ok
          (record { inverse_version = 255 - pub_key_ecdsa_version; payload = slice 1 33 script })
      else err panicked
  payload_of script_hash script =
      if leb 34 (length script)
      then ok (record {
        inverse_version = 255 - script_hash_version;
        payload = slice 2 32 script ++ 0 ∷ [];
      })
      else err panicked

  unfoldable pub try_from : ScriptPublicKey → Result AddressPayload
  unfolding payload_of
  try_from spk =
      if ltb (class_version (from_script spk)) spk.version
      then err invalid_script
      else payload_of (from_script spk) spk.script
