-- ===== src/Crypto/Chains.antt =====
-- internal/cryptopolicy and internal/tlspolicy: which keys, certificates and connections are accepted.
use pepin.Prelude.{
  ◌≡◌, refl, String, Bool, true, false, ◌&&◌, Option, none, some, List, [], ◌∷◌, ◌⊎◌, inl, inr, leb,
  nat_eq, all_by, any_by, arith, Option-cases, trim_space,
}
use pepin.Crypto.{
  PublicKey, KeyError, PemError, Readers, validate_public_key, validate_each,
  validate_client_certificate, chain_error, verify_chains, verify_connection, accepted, parse_block,
  parse_public_key,
}

-- The policy: RSA from 2048 bits, an elliptic curve from 224 bits, Ed25519 of 32 bytes.
abbrev pub is_strong : PublicKey → Bool
is_strong (PublicKey.rsa (some bits)) = leb 2048 bits
is_strong (PublicKey.ecdsa (some bits)) = leb 224 bits
is_strong (PublicKey.ed25519 bytes) = nat_eq bytes 32
is_strong key = false

abbrev pub is_ok {ℓ} : {E : Type ℓ} → Option E → Bool
is_ok none = true
is_ok (some e) = false

-- A chain of trust with a certificate, and of strong keys only.
abbrev pub is_strong_chain : List PublicKey → Bool
is_strong_chain [] = false
is_strong_chain (key ∷ chain) = is_strong key && all_by is_strong chain

abbrev pub is_strong_certificate : Option PublicKey → Bool
is_strong_certificate none = false
is_strong_certificate (some key) = is_strong key

abbrev pub is_present {ℓ} : {A : Type ℓ} → List A → Bool
is_present [] = false
is_present (x ∷ xs) = true

validate_public_key-is_strong : (key : PublicKey) → is_ok (validate_public_key key) ≡ is_strong key
unfolding validate_public_key
validate_public_key-is_strong (PublicKey.rsa none) = refl
validate_public_key-is_strong (PublicKey.rsa (some bits)) = ground arith
validate_public_key-is_strong (PublicKey.ecdsa none) = refl
validate_public_key-is_strong (PublicKey.ecdsa (some bits)) = ground arith
validate_public_key-is_strong (PublicKey.ed25519 bytes) = ground arith
validate_public_key-is_strong PublicKey.unknown = refl

chain_error-is_strong :
    (chain : List PublicKey) → is_ok (chain_error chain) ≡ all_by is_strong chain
unfolding chain_error
chain_error-is_strong [] = refl
chain_error-is_strong (key ∷ chain) =
    ground (arith, validate_public_key-is_strong key, chain_error-is_strong chain)

verify_chains-is_strong :
    (chains : List (List PublicKey)) (refusal : Option KeyError)
    → is_ok (verify_chains chains refusal) ≡ any_by is_strong_chain chains
unfolding verify_chains
verify_chains-is_strong [] refusal = refl
verify_chains-is_strong ([] ∷ chains) refusal = verify_chains-is_strong chains refusal
verify_chains-is_strong ((key ∷ chain) ∷ chains) refusal =
    elim (Option-cases (chain_error (key ∷ chain))) [
      | inl strong ↦ ground (arith, strong, chain_error-is_strong (key ∷ chain))
      | inr (e, weak) ↦ ground (
        arith,
        weak,
        chain_error-is_strong (key ∷ chain),
        verify_chains-is_strong chains (some e),
      )
    ]

validate_each-is_strong :
    (certs : List (Option PublicKey))
    → is_ok (validate_each certs) ≡ all_by is_strong_certificate certs
unfolding validate_each
validate_each-is_strong [] = refl
validate_each-is_strong (none ∷ certs) = refl
validate_each-is_strong (some key ∷ certs) =
    ground (arith, validate_public_key-is_strong key, validate_each-is_strong certs)

-- A TLS connection is accepted exactly when one of the chains of trust that Go verified has a
-- certificate and strong keys only, whatever the order of the chains: a weak chain before or behind a
-- strong one does not count, an empty chain neither, and without a chain the connection is refused.
pub verify_connection-is_strong :
    (chains : List (List PublicKey))
    → is_ok (verify_connection chains) ≡ any_by is_strong_chain chains
unfolding verify_connection
verify_connection-is_strong chains = verify_chains-is_strong chains none

-- A client certificate is accepted exactly when it is there and every certificate of it parses and has
-- a strong key.
pub validate_client_certificate-is_strong :
    (certs : List (Option PublicKey))
    → is_ok (validate_client_certificate certs)
      ≡ (is_present certs && all_by is_strong_certificate certs)
unfolding validate_client_certificate
validate_client_certificate-is_strong [] = refl
validate_client_certificate-is_strong (cert ∷ certs) = validate_each-is_strong (cert ∷ certs)

abbrev pub holds_strong : PemError ⊎ PublicKey → Bool
holds_strong (inl e) = true
holds_strong (inr key) = is_strong key

accepted-is_strong : (key : Option PublicKey) → holds_strong (accepted key) ≡ true
accepted-is_strong none = refl
accepted-is_strong (some key) = ground (arith, validate_public_key-is_strong key)

parse_block-is_strong :
    (readers : Readers) (type bytes : String) → holds_strong (parse_block readers type bytes) ≡ true
parse_block-is_strong readers type bytes = ground (
  arith,
  accepted-is_strong (readers.parse_pkix bytes),
  accepted-is_strong (readers.parse_pkcs1 bytes),
)

-- No weak key leaves the reader of a public key: what `ParsePublicKey` returns without an error is
-- strong, whatever the readers of PEM and X.509 make of the file.
pub parse_public_key-is_strong :
    (readers : Readers) (text : String) → holds_strong (parse_public_key readers text) ≡ true
unfolding parse_public_key
parse_public_key-is_strong readers text =
    elim (Option-cases (readers.decode_pem (trim_space text))) [
      | inl absent ↦ ground (arith, absent)
      | inr ((type, bytes, rest), found) ↦
          ground (arith, found, parse_block-is_strong readers type bytes)
    ]
