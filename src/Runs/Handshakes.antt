-- ===== src/Runs/Handshakes.antt =====
-- Handshakes of the two chains of example/dotli/src/lib.rs.
use microdot.Base.{ℕ, ◌≢◌, refl, [], ◌∷◌, ◌++◌, Bytes}
use microdot.Dotli.Polkadot.{relay_genesis_hash, assethub_genesis_hash}
use microdot.Dotli.Protocols.{
  relay_configuration, assethub_configuration, IsHandshakeEncoder, SpeaksOnlyTo,
  configurations_speak,
}

abbrev encode : ℕ → ℕ → Bytes → Bytes → Bytes
encode role number best genesis = role ∷ ((number ∷ 0 ∷ 0 ∷ 0 ∷ []) ++ (best ++ genesis))

encode-IsHandshakeEncoder : IsHandshakeEncoder encode
encode-IsHandshakeEncoder role number best genesis = (number ∷ 0 ∷ 0 ∷ 0 ∷ [], refl, refl)

configurations_speak_example :
    SpeaksOnlyTo encode relay_genesis_hash (relay_configuration (λ bytes. bytes) encode)
    × SpeaksOnlyTo encode assethub_genesis_hash (assethub_configuration (λ bytes. bytes) encode)
    × (relay_genesis_hash ≢ assethub_genesis_hash)
configurations_speak_example =
    configurations_speak (λ bytes. bytes) encode encode-IsHandshakeEncoder
