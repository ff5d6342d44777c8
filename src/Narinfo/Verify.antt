-- ===== src/Narinfo/Verify.antt =====
-- src/narinfo.rs: `load_acl_keys` and `verify_narinfo_signature`. A key of ed25519-dalek is the 32
-- bytes that it was made from, which `to_bytes` gives back.
use guix_p2p.Prelude.{
  ℕ, zero, suc, Bool, false, ◌&&◌, Option, none, some, List, [], ◌∷◌, nat_beq, if◌then◌else◌,
  nat_eq, text_beq, text_eq, length, drop, any, keys,
}
use guix_p2p.Crypto.{Bytes, Text, Crypto}
use guix_p2p.Text.{chars, split_find, split_once, utf8}
use guix_p2p.Narinfo.{Narinfo}

-- The errors of the file and of its text.
pub data AclError : Type 0 where
  unreadable : AclError
  unterminated : AclError
  invalid_hex : AclError
  wrong_length : ℕ → AclError
  invalid_key : AclError
  out_of_fuel : AclError

pub data Keys : Type 0 where
  loaded : List Bytes → Keys
  refused : AclError → Keys

-- The key goes before those of the rest of the file, unless the rest is refused.
abbrev pub with_key : Bytes → Keys → Keys
with_key key (loaded keys) = loaded (key ∷ keys)
with_key key (refused e) = refused e

-- What stands at the next `(q #`: the text up to the next `#`, and what follows.
pub data NextKey : Type 0 where
  no_key : NextKey
  open_key : NextKey
  next_key : Text → Text → NextKey

unfoldable pub key_at : Option (Text × Text) → NextKey
key_at none = open_key
key_at (some (hex_str, rest)) = next_key hex_str rest

unfoldable pub key_after : Option (Text × Text) → NextKey
unfolding split_once key_at
key_after none = no_key
key_after (some (_, found)) = key_at (split_once b'#' (drop 4 found))

unfoldable pub find_key : Text → NextKey
unfolding split_find key_after
find_key raw = key_after (split_find (chars "(q #") raw)

-- `is_key` says for which bytes `VerifyingKey::from_bytes` succeeds.
module _ (crypto : Crypto) (is_key : Bytes → Bool) where
  unfoldable pub read_key : Text → Keys
  read_key hex_str = elim (crypto.unhex hex_str) [
    | none ↦ refused invalid_hex
    | some bytes ↦
        if nat_beq (length bytes) 32
        then if is_key bytes then loaded (bytes ∷ []) else refused invalid_key
        else refused (wrong_length (length bytes))
  ]

  -- The keys of the text behind, where the first one is well formed.
  unfoldable pub join_keys : Keys → Keys → Keys
  join_keys (refused e) rest = refused e
  join_keys (loaded []) rest = rest
  join_keys (loaded (key ∷ _)) rest = with_key key rest

  -- One turn of the loop, where `more` reads the rest of the text.
  unfoldable pub turn : (Text → Keys) → NextKey → Keys
  unfolding read_key join_keys
  turn more no_key = loaded []
  turn more open_key = refused unterminated
  turn more (next_key hex_str rest) = join_keys (read_key hex_str) (more rest)

  unfoldable pub acl_keys : ℕ → Text → Keys
  unfolding turn find_key
  acl_keys zero raw = refused out_of_fuel
  acl_keys (suc fuel) raw = turn (λ rest. acl_keys fuel rest) (find_key raw)

  -- Each turn takes away four characters at least.
  unfoldable pub load_acl_keys : Option Text → Keys
  unfolding acl_keys
  load_acl_keys none = refused unreadable
  load_acl_keys (some raw) = acl_keys (suc (length raw)) raw

-- S-expressions of libgcrypt: reading, the first list with a token, the data at an index, and the check
-- of a signature value against data and a public key.
pub record Gcrypt (S : Type 0) : Type 0 where
  pub sexp_new : Bytes → Option S
  pub find_token : S → Text → Option S
  pub data_at : S → ℕ → Option Bytes
  pub pk_verify : S → S → S → Bool

module _ {S : Type 0} (gcrypt : Gcrypt S) where
  unfoldable pub verify : S → Bool
  verify s = elim (gcrypt.find_token s (chars "data")) [
    | none ↦ false
    | some signed ↦ elim (gcrypt.find_token s (chars "sig-val")) [
      | none ↦ false
      | some sig_val ↦ elim (gcrypt.find_token s (chars "public-key")) [
        | none ↦ false
        | some public_key ↦ gcrypt.pk_verify sig_val signed public_key
      ]
    ]
  ]

  -- `splitn(3, ';')` has three parts, of which the first is `1`; the third one.
  unfoldable pub signature_text : Text → Option Text
  unfolding split_once
  signature_text sig_str = elim (split_once b';' sig_str) [
    | none ↦ none
    | some (version, rest) ↦ elim (split_once b';' rest) [
      | none ↦ none
      | some (_, b64) ↦ if text_beq version (chars "1") then some b64 else none
    ]
  ]

  abbrev bytes_are : Option Bytes → Bytes → Bool
  bytes_are none expected = false
  bytes_are (some bytes) expected = text_beq bytes expected

  abbrev token_data : S → Text → ℕ → Option Bytes
  token_data s token i = elim (gcrypt.find_token s token) [
    | none ↦ none
    | some list ↦ gcrypt.data_at list i
  ]

  -- `sha256` is of the UTF-8 bytes of the signed portion.
  abbrev hash_agrees : Crypto → S → Text → Bool
  hash_agrees crypto s portion =
      bytes_are (token_data s (chars "hash") 1) (chars "sha256")
      && bytes_are (token_data s (chars "hash") 2) (crypto.sha256 (utf8 portion))

  abbrev key_is_known : S → List Bytes → Bool
  key_is_known s keys = elim (token_data s (chars "q") 1) [
    | none ↦ false
    | some q ↦ nat_beq (length q) 32 && any (λ key. text_beq key q) keys
  ]

  -- `decode` is the standard decoder of the crate base64.
  unfoldable pub verify_narinfo_signature :
      Crypto → (Text → Option Bytes) → Narinfo → List Bytes → Bool
  unfolding signature_text verify utf8
  verify_narinfo_signature crypto decode narinfo keys = elim narinfo.signature [
    | none ↦ false
    | some sig_str ↦ elim (signature_text sig_str) [
      | none ↦ false
      | some b64 ↦ elim (decode b64) [
        | none ↦ false
        | some sig_bytes ↦ elim (gcrypt.sexp_new sig_bytes) [
          | none ↦ false
          | some s ↦
              hash_agrees crypto s narinfo.signed_portion && (key_is_known s keys && verify s)
        ]
      ]
    ]
  ]
