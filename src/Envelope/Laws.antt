-- ===== src/Envelope/Laws.antt =====
-- Envelopes, written and read.
mod Tests
use xlchat_project.Common.{
  ℕ, pos, ◌≡◌, refl, Bool, true, false, not, ◌&&◌, Option, none, some, List, [], ◌∷◌, ◌==◌, leb,
  length, if◌then◌else◌, Text, is_empty, Option-cases, inl, inr, arith,
}
use xlchat_project.Envelope.{
  EntryJson, EnvelopeJson, EnvelopeEntry, encode_entries, encode_envelope, is_one, natural,
  decode_entry, join_entry, decode_entries, decode_envelope,
}

-- An entry names a device, and its parts have the sizes of X25519 and AES-GCM.
abbrev pub is_well_formed : EnvelopeEntry → Bool
is_well_formed e =
    not (is_empty e.device)
    && (length e.ephemeral == 32 && (length e.iv == 12 && leb 16 (length e.ciphertext)))

unfoldable pub are_well_formed : List EnvelopeEntry → Bool
are_well_formed [] = true
are_well_formed (e ∷ es) = is_well_formed e && are_well_formed es

unfoldable pub has_entry : List EnvelopeEntry → Bool
has_entry [] = false
has_entry (e ∷ es) = true

module _ (decode64 : Text → List ℕ) where
  decode_entries_formed :
      (es : List (Option EntryJson)) (out : List EnvelopeEntry)
      → decode_entries decode64 es ≡ some out
      → are_well_formed out ≡ true
  unfolding decode_entries are_well_formed decode_entry join_entry
  decode_entries_formed [] out h = ground (arith, h)
  decode_entries_formed (none ∷ es) out h = ground (arith, h)
  decode_entries_formed (some e ∷ es) out h = elim (Option-cases (decode_entries decode64 es)) [
    | inl x ↦ ground (arith, h, x)
    | inr (rest, x) ↦ ground (arith, h, x, decode_entries_formed es rest x)
  ]

  decode_entries-has_entry :
      (d : Option EntryJson) (ds : List (Option EntryJson)) (out : List EnvelopeEntry)
      → decode_entries decode64 (d ∷ ds) ≡ some out
      → has_entry out ≡ true
  unfolding decode_entries has_entry join_entry
  decode_entries-has_entry none ds out h = ground (arith, h)
  decode_entries-has_entry (some e) ds out h = ground (arith, h)

  formed :
      (v : Bool) (ds : Option (List (Option EntryJson))) (out : List EnvelopeEntry)
      → elim ds as (λ x. Option (List EnvelopeEntry)) [
        | none ↦ none
        | some [] ↦ none
        | some (d ∷ rest) ↦ if v then decode_entries decode64 (d ∷ rest) else none
      ]
        ≡ some out
      → (are_well_formed out ≡ true) × (has_entry out ≡ true)
  formed v none out h = ground (arith, h)
  formed v (some []) out h = ground (arith, h)
  formed false (some (d ∷ ds)) out h = ground (arith, h)
  formed true (some (d ∷ ds)) out h =
      (decode_entries_formed (d ∷ ds) out h, decode_entries-has_entry d ds out h)

  -- Whatever JSON it is given, the decoder returns only envelopes with an entry at least, each of which
  -- names a device and carries a 32 byte key, a 12 byte iv and a ciphertext that holds its tag.
  pub decode_envelope_formed :
      (j : Option EnvelopeJson) (out : List EnvelopeEntry)
      → decode_envelope decode64 j ≡ some out
      → (are_well_formed out ≡ true) × (has_entry out ≡ true)
  unfolding decode_envelope
  decode_envelope_formed none out h = ground (arith, h)
  decode_envelope_formed (some j) out h = formed (is_one j.v) j.devices out h

  module _ (encode64 : List ℕ → Text)
      (round : (bytes : List ℕ) → decode64 (encode64 bytes) ≡ bytes) where
    decode_entries-encode :
        (es : List EnvelopeEntry)
        → are_well_formed es ≡ true
        → decode_entries decode64 (encode_entries encode64 es) ≡ some es
    unfolding decode_entries encode_entries are_well_formed decode_entry join_entry natural
    decode_entries-encode [] h = refl
    decode_entries-encode (e ∷ es) h =
        ground
          (arith, h, decode_entries-encode es, round e.ephemeral, round e.iv, round e.ciphertext)

-- Encoding an envelope and decoding it gives the entries back, whatever they hold, provided that there
-- is one, that all are well formed, and that decoding base64 undoes encoding.
pub decode_envelope-encode :
    (decode64 : Text → List ℕ) (encode64 : List ℕ → Text)
    → ((bytes : List ℕ) → decode64 (encode64 bytes) ≡ bytes)
    → (es : List EnvelopeEntry) → are_well_formed es ≡ true
    → has_entry es ≡ true
    → decode_envelope decode64 (some (encode_envelope encode64 es)) ≡ some es
unfolding decode_envelope encode_envelope encode_entries has_entry is_one
decode_envelope-encode decode64 encode64 round [] h n = ground (arith, n)
decode_envelope-encode decode64 encode64 round (e ∷ es) h n =
    decode_entries-encode decode64 encode64 round (e ∷ es) h
