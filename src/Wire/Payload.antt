-- ===== src/Wire/Payload.antt =====
-- The payload, and whole messages through encryption.
use p2p_messenger.Prelude.{◌^◌, ◌<◌, ◌≡◌, ◌≢◌, ap, [], ◌∷◌, ◌++◌, true, some, arith, length}
use p2p_messenger.Prelude.Bytes.{Bytes}
use p2p_messenger.Prelude.Outcome.{ok, ◌>>=◌}
use p2p_messenger.External.{OpenDht, IsLawfulDht, Json, IsLawfulJson, time_key, text_key}
use p2p_messenger.Wire.Message.{Payload, Message, MessageFits, clip_message_fits, clip_fits}
use p2p_messenger.Wire.Serializer.{payload_to_buffer, encrypt, message_to_buffer}
use p2p_messenger.Wire.Deserializer.{payload_from_buffer, decrypt, message_from_buffer}
use p2p_messenger.Wire.Layout.{message_to_buffer_with_payload-layout, message_layout}
use p2p_messenger.Wire.Headers.{message_header-header}
use p2p_messenger.Wire.Reading.{read_bytes-clip}
use p2p_messenger.Wire.RoundTrip.{header_from_buffer-layout}

-- A payload that JSON carries unchanged.
pub record PayloadFits (J : Json) (p : Payload) : Type 0 where
  pub time : p.time < 2 ^ 64
  pub text : J.is_utf8 p.text ≡ true

time≢text : time_key ≢ text_key
time≢text = ground arith

module _ (J : Json) (L : IsLawfulJson J) where
  pub payload-round_trip :
      (p : Payload) → PayloadFits J p → payload_from_buffer J (payload_to_buffer J p) ≡ ok p
  unfolding payload_from_buffer payload_to_buffer
  payload-round_trip p h = rw (
    L.parse-serialize time_key text_key p.time p.text h.time h.text,
    L.as_object-of_object,
    L.at-here time_key,
    L.to_number_uint64-number p.time h.time,
    L.at-there text_key time_key (J.number p.time) ((text_key, J.string p.text) ∷ []) time≢text,
    L.at-here text_key,
    L.value_to_string-string p.text,
  )

module _ (D : OpenDht) (J : Json) (LD : IsLawfulDht D) (LJ : IsLawfulJson J) where
  pub message_from_buffer-layout :
      (m : Message) (k : D.PrivateKey) (cipher rest : Bytes)
      → MessageFits m
      → PayloadFits J m.payload
      → D.encrypt (D.public_key k) (payload_to_buffer J m.payload) ≡ some cipher
      → length cipher < 2 ^ 16
      → message_from_buffer D J (message_layout m cipher ++ rest) k ≡ ok m
  unfolding message_from_buffer decrypt
  message_from_buffer-layout m k cipher rest fits json sealed short =
      rw
        (
          message_header-header (message_layout m cipher ++ rest),
          header_from_buffer-layout m cipher rest,
          read_bytes-clip 2 cipher rest,
          clip_fits 2 cipher short,
          LD.decrypt-encrypt k (payload_to_buffer J m.payload) cipher sealed,
          payload-round_trip J LJ m.payload json,
        )
        (ap ok (clip_message_fits m m.payload fits))

  -- A message written for a public key is read back with the private key, provided that its fields fit
  -- the wire format, that JSON carries its payload, that encryption succeeds, and that the size of the
  -- cipher fits two bytes.
  pub message-round_trip :
      (m : Message) (k : D.PrivateKey) (cipher : Bytes)
      → MessageFits m
      → PayloadFits J m.payload
      → D.encrypt (D.public_key k) (payload_to_buffer J m.payload) ≡ some cipher
      → length cipher < 2 ^ 16
      → (message_to_buffer D J m (some (D.public_key k)) >>= λ b. message_from_buffer D J b k)
        ≡ ok m
  unfolding message_to_buffer encrypt
  message-round_trip m k cipher fits json sealed short = rw (
    sealed,
    message_to_buffer_with_payload-layout m cipher,
    message_from_buffer-layout m k cipher _ fits json sealed short,
  )
