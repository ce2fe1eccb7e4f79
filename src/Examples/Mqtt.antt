-- ===== src/Examples/Mqtt.antt =====
-- The theorems on MQTT packets at a concrete message.
use sertay_thesis.Prelude.{◌≤◌, ◌≡◌, refl, ◌∷◌, [], ◌++◌, length, arith}
use sertay_thesis.Artifact.Http.{Bytes}
use sertay_thesis.Mqtt.{
  read, mqtt_read_packet, remaining_length_bytes, publish_body, mqtt_string, put_uint16,
  publish_packet, publish, mqtt_parse_publish,
}
use sertay_thesis.Mqtt.Length.{remaining_length_ends}
use sertay_thesis.Mqtt.Packets.{message_roundtrip}

abbrev topic : Bytes
topic = 97 ∷ 47 ∷ 98 ∷ []

abbrev payload : Bytes
payload = 123 ∷ 125 ∷ []

body_length : length (publish_body topic payload) ≡ 9
unfolding publish_body mqtt_string put_uint16
body_length = refl

message_roundtrip_example :
    (body : Bytes) × (mqtt_read_packet (publish_packet topic payload ++ 208 ∷ [])
      ≡ read (50, body) (208 ∷ []))
    × (mqtt_parse_publish 50 body ≡ publish topic payload)
message_roundtrip_example =
    message_roundtrip topic payload (208 ∷ []) (omega arith) (omega (arith, body_length))

remaining_length_ends_example :
    (remaining_length_bytes 1000 321 ≡ remaining_length_bytes 322 321)
    × (1 ≤ length (remaining_length_bytes 1000 321))
    × (length (remaining_length_bytes 1000 321) ≤ 4)
remaining_length_ends_example = remaining_length_ends 321 1000 (omega arith) (omega arith)
