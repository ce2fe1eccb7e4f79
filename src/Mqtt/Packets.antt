-- ===== src/Mqtt/Packets.antt =====
-- A published message, read back (mqttPublish of mqtt_publisher.go, mqttReadPacket and mqttParsePublish
-- of mqtt_telemetry.go).
use sertay_thesis.Prelude.{
  ℕ, suc, ◌+◌, ◌*◌, ◌/◌, ◌%◌, ◌<◌, ◌^◌, ◌≡◌, refl, ap, ◌∷◌, [], ◌++◌, length, length-append,
  take-length_append, drop-length_append, arith,
}
use sertay_thesis.Artifact.Http.{Bytes}
use sertay_thesis.Mqtt.{
  read, read_full, put_uint16, mqtt_string, mqtt_read_packet, mqtt_fixed_header, publish_body,
  publish_packet, publish, parse_topic, mqtt_parse_publish, remaining_length_bytes,
}
use sertay_thesis.Mqtt.Length.{remaining_length_roundtrip}

append_assoc : (xs ys zs : Bytes) → (xs ++ ys) ++ zs ≡ xs ++ (ys ++ zs)
append_assoc [] ys zs = refl
append_assoc (x ∷ xs) ys zs = ap (λ r. x ∷ r) (append_assoc xs ys zs)

read_full-append : (body rest : Bytes) → read_full (length body) (body ++ rest) ≡ read body rest
unfolding read_full
read_full-append body rest =
    rw (take-length_append body rest)
      (rw (drop-length_append body rest) (ground (arith, length-append body rest)))

-- A packet of a type and a body of less than 2 ^ 28 bytes is read back, with the bytes behind it.
pub packet_roundtrip :
    (packet_type : ℕ) (body rest : Bytes)
    → length body < 2 ^ 28
    → mqtt_read_packet ((mqtt_fixed_header packet_type (length body) ++ body) ++ rest)
      ≡ read (packet_type, body) rest
unfolding mqtt_read_packet mqtt_fixed_header
packet_roundtrip packet_type body rest h =
    rw (append_assoc (remaining_length_bytes (suc (length body)) (length body)) body rest) (
      rw (remaining_length_roundtrip (length body) (body ++ rest) h)
        (rw (read_full-append body rest) refl))

uint16_read_back : (n : ℕ) → n < 2 ^ 16 → n / 256 % 256 * 256 + n % 256 ≡ n
uint16_read_back n h = omega (arith, h)

topic_parsed :
    (topic payload : Bytes)
    → parse_topic 1 (length topic) (topic ++ 0 ∷ 1 ∷ payload) ≡ publish topic payload
unfolding parse_topic
topic_parsed topic payload = rw (take-length_append topic (0 ∷ 1 ∷ payload)) (
    rw (drop-length_append topic (0 ∷ 1 ∷ payload))
      (ground (arith, length-append topic (0 ∷ 1 ∷ payload))))

-- The body that is published for a topic of less than 2 ^ 16 bytes is parsed into the topic and the
-- payload.
pub publish_roundtrip :
    (topic payload : Bytes)
    → length topic < 2 ^ 16
    → mqtt_parse_publish 50 (publish_body topic payload) ≡ publish topic payload
unfolding mqtt_parse_publish publish_body mqtt_string put_uint16
publish_roundtrip topic payload h =
    rw (uint16_read_back (length topic) h) (topic_parsed topic payload)

-- A message that is published is read from the connection as the packet type with the topic and the
-- payload, for a topic of less than 2 ^ 16 bytes and a body of less than 2 ^ 28.
pub message_roundtrip :
    (topic payload rest : Bytes)
    → length topic < 2 ^ 16
    → length (publish_body topic payload) < 2 ^ 28
    → (body : Bytes) × (mqtt_read_packet (publish_packet topic payload ++ rest)
        ≡ read (50, body) rest)
      × (mqtt_parse_publish 50 body ≡ publish topic payload)
unfolding publish_packet
message_roundtrip topic payload rest t b = (
  publish_body topic payload,
  packet_roundtrip 50 (publish_body topic payload) rest b,
  publish_roundtrip topic payload t,
)
