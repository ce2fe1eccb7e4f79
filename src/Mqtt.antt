-- ===== src/Mqtt.antt =====
-- The MQTT 3.1.1 packets of the operator (mqtt_publisher.go and mqtt_telemetry.go of
-- edge/operator/internal/controller). A connection is the bytes that are still to be read; a Go string
-- is its bytes; an error is what its message is made of, without the text that wraps it.
pub mod Length
pub mod Packets
use sertay_thesis.Prelude.{
  ℕ, zero, suc, ◌+◌, ◌*◌, ◌/◌, ◌%◌, ◌-◌, ◌^◌, Bool, true, false, not, ◌&&◌, ◌||◌, List, [], ◌∷◌,
  ◌++◌, ltb, leb, ◌==◌, length, take, drop, if◌then◌else◌,
}
use sertay_thesis.Artifact.Http.{Bytes}

pub data MqttError : Type 0 where
  eof unexpected_eof length_exceeds_four_bytes : MqttError
  short_publish truncated_topic truncated_packet_identifier : MqttError
  connack_packet_type connection_rejected : ℕ → MqttError
  unexpected_puback : Bytes → MqttError
  suback_packet_type : ℕ → MqttError
  short_suback : MqttError

-- What a read returns, with the bytes behind it.
pub data Read (A : Type 0) : Type 0 where
  read : A → Bytes → Read A
  failed : MqttError → Read A

abbrev pub then_read : {A B : Type 0} → Read A → (A → Bytes → Read B) → Read B
then_read (read a rest) f = f a rest
then_read (failed e) f = failed e

-- io.ReadFull of n bytes.
unfoldable pub read_full : ℕ → Bytes → Read Bytes
read_full n bytes =
    if leb n (length bytes)
    then read (take n bytes) (drop n bytes)
    else if length bytes == 0
    then failed eof
    else failed unexpected_eof

-- binary.BigEndian.PutUint16 of a length that is converted to uint16.
unfoldable pub put_uint16 : ℕ → Bytes
put_uint16 n = (n / 256 % 256) ∷ (n % 256) ∷ []

unfoldable pub mqtt_string : Bytes → Bytes
mqtt_string value = put_uint16 (length value) ++ value

-- The loop of mqttFixedHeader; its rounds are bounded by the length.
unfoldable pub remaining_length_bytes : ℕ → ℕ → Bytes
remaining_length_bytes zero n = []
remaining_length_bytes (suc rounds) n =
    let rest = remaining_length_bytes rounds (n / 128) in
    if n / 128 == 0 then (n % 128) ∷ [] else (n % 128 + 128) ∷ rest

unfoldable pub mqtt_fixed_header : ℕ → ℕ → Bytes
mqtt_fixed_header packet_type n = packet_type ∷ remaining_length_bytes (suc n) n

-- The packet of mqttPublish, with the packet identifier 1.
unfoldable pub publish_body : Bytes → Bytes → Bytes
publish_body topic payload = mqtt_string topic ++ 0 ∷ 1 ∷ payload

unfoldable pub publish_packet : Bytes → Bytes → Bytes
publish_packet topic payload =
    let body = publish_body topic payload in mqtt_fixed_header 50 (length body) ++ body

-- The packet of mqttConnect.
unfoldable pub connect_body : Bytes → Bytes → Bytes → Bytes
connect_body client_id username password =
    let has_username = not (length username == 0) in
    let has_password = not (length password == 0) in
    mqtt_string (77 ∷ 81 ∷ 84 ∷ 84 ∷ [])
    ++ 4
      ∷ (2 + (if has_username then 128 else 0) + (if has_password then 64 else 0))
      ∷ 0
      ∷ 30
      ∷ mqtt_string client_id
    ++ (if has_username then mqtt_string username else [])
    ++ (if has_password then mqtt_string password else [])

unfoldable pub connect_packet : Bytes → Bytes → Bytes → Bytes
connect_packet client_id username password =
    let body = connect_body client_id username password in
    mqtt_fixed_header 16 (length body) ++ body

-- One round of mqttReadRemainingLength for each of `rounds`; a byte holds 7 bits of the length.
unfoldable pub read_length : ℕ → ℕ → ℕ → Bytes → Read ℕ
read_length zero multiplier value bytes = failed length_exceeds_four_bytes
read_length (suc rounds) multiplier value [] = failed eof
read_length (suc rounds) multiplier value (b ∷ bytes) =
    let value' = value + b % 128 * multiplier in
    let rest = read_length rounds (multiplier * 128) value' bytes in
    if b / 128 % 2 == 0 then read value' bytes else rest

unfoldable pub mqtt_read_remaining_length : Bytes → Read ℕ
mqtt_read_remaining_length = read_length 4 1 0

unfoldable pub mqtt_read_packet : Bytes → Read (ℕ × Bytes)
mqtt_read_packet [] = failed eof
mqtt_read_packet (header ∷ bytes) =
    then_read (mqtt_read_remaining_length bytes)
      λ remaining rest. then_read (read_full remaining rest) λ body rest'. read (header, body) rest'

-- What mqttParsePublish returns: the topic and the payload, or an error.
pub data Publish : Type 0 where
  publish : Bytes → Bytes → Publish
  malformed : MqttError → Publish

-- The part behind the length of the topic; `qos` is bits 1 and 2 of the header.
unfoldable pub parse_topic : ℕ → ℕ → Bytes → Publish
parse_topic qos topic_length rest =
    if ltb (length rest) topic_length
    then malformed truncated_topic
    else if qos == 0
    then publish (take topic_length rest) (drop topic_length rest)
    else if ltb (length (drop topic_length rest)) 2
    then malformed truncated_packet_identifier
    else publish (take topic_length rest) (drop 2 (drop topic_length rest))

unfoldable pub mqtt_parse_publish : ℕ → Bytes → Publish
mqtt_parse_publish header [] = malformed short_publish
mqtt_parse_publish header (b ∷ []) = malformed short_publish
mqtt_parse_publish header (high ∷ low ∷ rest) = parse_topic (header / 2 % 4) (high * 256 + low) rest

-- The CONNACK that mqttConnect waits for: the packet type, the body, and its return code.
unfoldable pub check_connack : Bytes → Bytes → Read (Unit {0})
check_connack (flags ∷ code ∷ more) rest =
    if code == 0 then read tt rest else failed (connection_rejected code)
check_connack (flags ∷ []) rest = failed (connection_rejected 255)
check_connack [] rest = failed (connection_rejected 255)

unfoldable pub read_connack_body : Bytes → Bytes → Read (Unit {0})
read_connack_body (packet_type ∷ n ∷ more) rest =
    if packet_type == 32
    then then_read (read_full n rest) check_connack
    else failed (connack_packet_type packet_type)
read_connack_body (packet_type ∷ []) rest = failed unexpected_eof
read_connack_body [] rest = failed eof

unfoldable pub read_connack : Bytes → Read (Unit {0})
read_connack bytes = then_read (read_full 2 bytes) read_connack_body

-- The PUBACK that mqttPublish waits for, of four bytes.
unfoldable pub is_puback : Bytes → Bool
is_puback (packet_type ∷ n ∷ high ∷ low ∷ more) =
    (packet_type == 64) && (n == 2) && (high * 256 + low == 1)
is_puback (a ∷ b ∷ c ∷ []) = false
is_puback (a ∷ b ∷ []) = false
is_puback (a ∷ []) = false
is_puback [] = false

unfoldable pub read_puback : Bytes → Read (Unit {0})
read_puback bytes =
    then_read (read_full 4 bytes)
      λ ack rest. if is_puback ack then read tt rest else failed (unexpected_puback ack)

-- The packet of subscribe, with a QoS of 0 behind each topic.
unfoldable pub subscribe_topics : List Bytes → Bytes
subscribe_topics [] = []
subscribe_topics (topic ∷ topics) = mqtt_string topic ++ 0 ∷ subscribe_topics topics

unfoldable pub subscribe_packet : ℕ → List Bytes → Bytes
subscribe_packet packet_id topics =
    let body = put_uint16 packet_id ++ subscribe_topics topics in
    mqtt_fixed_header 130 (length body) ++ body

unfoldable pub read_suback : Bytes → Read (Unit {0})
read_suback bytes = then_read (mqtt_read_packet bytes) λ packet rest.
    if not (packet.0 == 144)
    then failed (suback_packet_type packet.0)
    else if ltb (length packet.1) 2
    then failed short_suback
    else read tt rest

-- A uint16 counter that skips 0.
unfoldable pub next_subscribe_packet_id : ℕ → ℕ
next_subscribe_packet_id last = let next = (last + 1) % 2 ^ 16 in if next == 0 then 1 else next
