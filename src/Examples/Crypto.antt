-- ===== src/Examples/Crypto.antt =====
-- Keys and connections at concrete chains.
use pepin.Prelude.{◌≡◌, some, [], ◌∷◌, any_by}
use pepin.Crypto.{PublicKey, verify_connection}
use pepin.Crypto.Chains.{is_ok, is_strong_chain, verify_connection-is_strong}

verify_connection-is_strong_example :
    is_ok (
      verify_connection (
        (PublicKey.rsa (some 1024) ∷ [])
        ∷ []
        ∷ (PublicKey.ed25519 32 ∷ PublicKey.ecdsa (some 256) ∷ [])
        ∷ []))
    ≡ any_by is_strong_chain (
        (PublicKey.rsa (some 1024) ∷ [])
        ∷ []
        ∷ (PublicKey.ed25519 32 ∷ PublicKey.ecdsa (some 256) ∷ [])
        ∷ [])
verify_connection-is_strong_example = verify_connection-is_strong (
    (PublicKey.rsa (some 1024) ∷ [])
    ∷ []
    ∷ (PublicKey.ed25519 32 ∷ PublicKey.ecdsa (some 256) ∷ [])
    ∷ [])
