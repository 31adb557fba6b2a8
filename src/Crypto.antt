-- ===== src/Crypto.antt =====
-- internal/cryptopolicy/keys.go and internal/tlspolicy/tlspolicy.go: the keys that are accepted. The
-- readers of PEM and of X.509 are parameters.
pub mod Chains
use Prim.Native.Char.{Char, code}
use pepin.Prelude.{
  ℕ, zero, suc, ◌+◌, ◌<>◌, String, Bool, true, false, not, ◌&&◌, ◌||◌, Option, none, some, List, [],
  ◌∷◌, ◌⊎◌, inl, inr, if◌then◌else◌, ◌==◌, leb, ltb, nat_eq, starts_with, behind_head, trim_space,
}

-- The types that the code names; `none` is a nil key, modulus or curve. RSA and EC by their bits,
-- Ed25519 by its bytes.
pub data PublicKey : Type 0 where
  rsa ecdsa : Option ℕ → PublicKey
  ed25519 : ℕ → PublicKey
  unknown : PublicKey

pub data KeyError : Type 0 where
  small_rsa small_ec unsupported : KeyError

abbrev min_hmac_key_bytes : ℕ
min_hmac_key_bytes = 14

-- The bytes of a text in UTF-8, `len` of a Go string.
unfoldable pub utf8_size : String → ℕ
utf8_size String.[] = 0
utf8_size (String.◌∷◌ c s) =
    (if ltb (code c) 128
      then 1
      else if ltb (code c) 2048
      then 2
      else if ltb (code c) 65536
      then 3
      else 4)
    + utf8_size s

-- `ValidateHMACSecret`: true where the error is nil.
unfoldable pub validate_hmac_secret : String → Bool
unfolding utf8_size
validate_hmac_secret secret = not (ltb (utf8_size secret) min_hmac_key_bytes)

abbrev at_least : ℕ → Option ℕ → Bool
at_least n none = false
at_least n (some bits) = leb n bits

-- `ValidatePublicKey`
unfoldable pub validate_public_key : PublicKey → Option KeyError
validate_public_key (PublicKey.rsa bits) =
    if at_least 2048 bits then none else some KeyError.small_rsa
validate_public_key (PublicKey.ecdsa bits) =
    if at_least 224 bits then none else some KeyError.small_ec
validate_public_key (PublicKey.ed25519 bytes) =
    if nat_eq bytes 32 then none else some KeyError.unsupported
validate_public_key PublicKey.unknown = some KeyError.unsupported

pub data CertificateError : Type 0 where
  missing unreadable no_chain : CertificateError
  weak : KeyError → CertificateError

-- The loop of `ValidateClientCertificate`; `none` is a certificate that does not parse.
unfoldable pub validate_each : List (Option PublicKey) → Option CertificateError
unfolding validate_public_key
validate_each [] = none
validate_each (none ∷ certs) = some CertificateError.unreadable
validate_each (some key ∷ certs) = elim (validate_public_key key) [
  | some e ↦ some (CertificateError.weak e)
  | none ↦ validate_each certs
]

-- `ValidateClientCertificate`
unfoldable pub validate_client_certificate : List (Option PublicKey) → Option CertificateError
unfolding validate_each
validate_client_certificate [] = some CertificateError.missing
validate_client_certificate (cert ∷ certs) = validate_each (cert ∷ certs)

-- The inner loop of `verifyConnection`: the first refusal of a chain.
unfoldable pub chain_error : List PublicKey → Option KeyError
unfolding validate_public_key
chain_error [] = none
chain_error (key ∷ chain) = elim (validate_public_key key) [
  | some e ↦ some e
  | none ↦ chain_error chain
]

-- The end of `verifyConnection`.
abbrev last_refusal : Option KeyError → CertificateError
last_refusal none = CertificateError.no_chain
last_refusal (some e) = CertificateError.weak e

-- The outer loop, with `refus`.
unfoldable pub verify_chains : List (List PublicKey) → Option KeyError → Option CertificateError
unfolding chain_error
verify_chains [] refusal = some (last_refusal refusal)
verify_chains ([] ∷ chains) refusal = verify_chains chains refusal
verify_chains ((key ∷ chain) ∷ chains) refusal = elim (chain_error (key ∷ chain)) [
  | none ↦ none
  | some e ↦ verify_chains chains (some e)
]

-- `verifyConnection`
unfoldable pub verify_connection : List (List PublicKey) → Option CertificateError
unfolding verify_chains
verify_connection chains = verify_chains chains none

pub data PemError : Type 0 where
  missing_pem not_public unreadable_key : PemError
  weak_key : KeyError → PemError

-- The non-overlapping occurrences, `bytes.Count`, with the characters still to be skipped.
unfoldable pub count_from : String → ℕ → String → ℕ
count_from sub n String.[] = 0
count_from sub (suc n) (String.◌∷◌ c s) = count_from sub n s
count_from sub zero (String.◌∷◌ c s) = elim (starts_with (String.◌∷◌ c s) sub) [
  | true ↦ suc (count_from sub (behind_head sub) s)
  | false ↦ count_from sub zero s
]

-- encoding/pem and crypto/x509.
pub record Readers : Type 0 where
  pub decode_pem : String → Option (String × String × String)
  pub parse_pkix : String → Option PublicKey
  pub parse_pkcs1 : String → Option PublicKey

abbrev pub begin_mark : String
begin_mark = "-----BEGIN "

abbrev pub accepted : Option PublicKey → PemError ⊎ PublicKey
accepted none = inl PemError.unreadable_key
accepted (some key) = elim (validate_public_key key) [
  | some e ↦ inl (PemError.weak_key e)
  | none ↦ inr key
]

abbrev pub parse_block : Readers → String → String → PemError ⊎ PublicKey
parse_block readers type bytes =
    if type == "PUBLIC KEY"
    then accepted (readers.parse_pkix bytes)
    else if type == "RSA PUBLIC KEY"
    then accepted (readers.parse_pkcs1 bytes)
    else inl PemError.not_public

-- `ParsePublicKey`, on the text of the file.
unfoldable pub parse_public_key : Readers → String → PemError ⊎ PublicKey
unfolding count_from validate_public_key
parse_public_key readers text =
    let data_ = trim_space text in
    elim (readers.decode_pem data_) [
      | none ↦ inl PemError.missing_pem
      | some (type, bytes, rest) ↦
          if not (starts_with data_ (begin_mark <> type <> "-----"))
            || not (nat_eq (count_from begin_mark 0 data_) 1)
            || not (trim_space rest == "")
          then inl PemError.missing_pem
          else parse_block readers type bytes
    ]
