-- ===== src/Envelope/Laws/Tests.antt =====
-- An envelope with one entry.
use xlchat_project.Common.{◌≡◌, refl, true, some, List, [], ◌∷◌, ℕ, codes}
use xlchat_project.Envelope.{EnvelopeEntry, encode_envelope}
use xlchat_project.Envelope.Laws.{
  are_well_formed, has_entry, decode_envelope_formed, decode_envelope-encode,
}

abbrev twelve : List ℕ
twelve = 1 ∷ 2 ∷ 3 ∷ 4 ∷ 5 ∷ 6 ∷ 7 ∷ 8 ∷ 9 ∷ 10 ∷ 11 ∷ 12 ∷ []

abbrev key : List ℕ
key =
    1 ∷ 2 ∷ 3 ∷ 4 ∷ 5 ∷ 6 ∷ 7 ∷ 8 ∷ 9 ∷ 10 ∷ 11 ∷ 12 ∷ 13 ∷ 14 ∷ 15 ∷ 16 ∷ 17 ∷ 18 ∷ 19 ∷ 20
    ∷ twelve

abbrev entries : List EnvelopeEntry
entries =
    record { device = codes "b"; prekey_id = 5; ephemeral = key; iv = twelve; ciphertext = key }
    ∷ []

decode_envelope_formed_example : (are_well_formed entries ≡ true) × (has_entry entries ≡ true)
unfolding are_well_formed has_entry
decode_envelope_formed_example =
    decode_envelope_formed (λ t. t) (some (encode_envelope (λ b. b) entries)) entries
      (decode_envelope-encode (λ t. t) (λ b. b) (λ b. refl) entries refl refl)
