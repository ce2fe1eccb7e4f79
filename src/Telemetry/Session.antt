-- ===== src/Telemetry/Session.antt =====
-- The session of the telemetry bridge with the broker (telemetryTopics, connectAndSubscribe,
-- consumeTelemetry, missingTopics, sortedTopicKeys and shouldSendTelemetryPing of
-- edge/operator/internal/controller/mqtt_telemetry.go). One run of the loop of consumeTelemetry is
-- a step from a session to a session; what the connection and the API server answer in it is a Tick.
-- The loop of Start, which connects again after a pause, is left out.
pub mod Trace
pub mod Cover
use sertay_thesis.Prelude.{
  ℕ, ◌-◌, ◌*◌, ◌/◌, Bool, true, false, not, Option, none, some, is_some, List, [], ◌∷◌, ◌++◌, leb,
  ◌==◌, if◌then◌else◌,
}
use sertay_thesis.Prelude.Int.{pos}
use sertay_thesis.Prelude.Text.{String, text_eq, text_before}
use sertay_thesis.Prelude.Time.{Time, Duration, second}
use sertay_thesis.Api.{WasmFunction}
use sertay_thesis.Artifact.Http.{Bytes, Outcome, ok, err}
use sertay_thesis.Mqtt.{Publish, publish, malformed, mqtt_parse_publish}
use sertay_thesis.Telemetry.{BatteryTelemetry, telemetry_topic_for_device}
use sertay_thesis.Telemetry.Update.{Bridge, Attempt, apply_battery_telemetry}

abbrev pub mqtt_telemetry_refresh_interval : Duration
mqtt_telemetry_refresh_interval = 15 * second

abbrev pub mqtt_telemetry_ping_interval : Duration
mqtt_telemetry_ping_interval = 20 * second

-- Adds a topic to a sorted set.
unfoldable pub insert_topic : String → List String → List String
insert_topic topic [] = topic ∷ []
insert_topic topic (t ∷ topics) =
    let rest = insert_topic topic topics in
    if text_eq topic t
    then t ∷ topics
    else if text_before topic t
    then topic ∷ t ∷ topics
    else t ∷ rest

-- The topics that the devices of the resources report on, each once and in order.
unfoldable pub topics_of : List WasmFunction → List String
topics_of [] = []
topics_of (wf ∷ items) =
    let rest = topics_of items in
    let topic = telemetry_topic_for_device wf.spec.device in
    if not (text_eq topic "") then insert_topic topic rest else rest

abbrev pub topics_or_error : List String → Outcome (List String)
topics_or_error [] = err "no telemetry topics configured"
topics_or_error (topic ∷ topics) = ok (topic ∷ topics)

-- telemetryTopics: an error where List fails, or where there are no topics.
unfoldable pub telemetry_topics : Outcome (List WasmFunction) → Outcome (List String)
telemetry_topics (err e) = err e
telemetry_topics (ok items) = topics_or_error (topics_of items)

unfoldable pub is_subscribed : String → List String → Bool
is_subscribed topic [] = false
is_subscribed topic (t ∷ topics) =
    let rest = is_subscribed topic topics in if text_eq t topic then true else rest

unfoldable pub missing_topics : List String → List String → List String
missing_topics [] subscribed = []
missing_topics (topic ∷ topics) subscribed =
    let rest = missing_topics topics subscribed in
    if is_subscribed topic subscribed then rest else topic ∷ rest

unfoldable pub should_send_telemetry_ping : Time → Time → Bool
should_send_telemetry_ping last_client_write now =
    leb mqtt_telemetry_ping_interval (now - last_client_write)

-- What consumeTelemetry keeps between two packets, with the memory of the bridge.
pub record Session : Type 0 where
  pub bridge : Bridge
  pub subscribed : List String
  pub last_refresh : Time
  pub last_client_write : Time

-- What mqttReadPacket returns.
pub data Incoming : Type 0 where
  timeout : Incoming
  broken : String → Incoming
  packet : ℕ → Bytes → Incoming

-- One run of the loop: the clock, which is read once, and all answers.
pub record Tick : Type 0 where
  pub now : Time
  pub listed : Outcome (List WasmFunction)
  pub subscribe_error : Option String
  pub incoming : Incoming
  pub ping_error : Option String
  pub text_of : Bytes → String
  pub unmarshal : Bytes → BatteryTelemetry × Option String
  pub list_error : Option String
  pub items : List (WasmFunction × List Attempt)

-- After a step: the session, the resources that were written, and the error that ends the loop.
pub record Stepped : Type 0 where
  pub session : Session
  pub written : List WasmFunction
  pub error : Option String

abbrev pub goes_on_with : Session → List WasmFunction → Stepped
goes_on_with s written = record { session = s; written = written; error = none }

-- Subscribes to the topics that are missing.
unfoldable pub subscribe_missing : Tick → Session → List String → Session × Option String
subscribe_missing t s [] = (record s { last_refresh = t.now }, none)
subscribe_missing t s (topic ∷ topics) =
    if is_some t.subscribe_error then (s, t.subscribe_error) else (
      record s {
        subscribed = s.subscribed ++ topic ∷ topics;
        last_client_write = t.now;
        last_refresh = t.now;
      },
      none,
    )

-- An error of List is logged.
unfoldable pub refresh_with : Tick → Session → Outcome (List String) → Session × Option String
refresh_with t s (err e) = (record s { last_refresh = t.now }, none)
refresh_with t s (ok topics) = subscribe_missing t s (missing_topics topics s.subscribed)

unfoldable pub refresh : Tick → Session → Session × Option String
refresh t s =
    if leb mqtt_telemetry_refresh_interval (t.now - s.last_refresh)
    then refresh_with t s (telemetry_topics t.listed)
    else (s, none)

-- A PUBLISH packet; an error of the packet or of the report is logged.
unfoldable pub handle_publish : Tick → Session → Publish → Stepped
handle_publish t s (malformed e) = goes_on_with s []
handle_publish t s (publish topic payload) =
    let (telemetry, decode_error) = t.unmarshal payload in
    let (bridge, (written, error)) =
      apply_battery_telemetry decode_error t.list_error t.items s.bridge (t.text_of topic)
        telemetry in
    if is_subscribed (t.text_of topic) s.subscribed
    then goes_on_with (record s { bridge = bridge }) written
    else goes_on_with s []

-- What was read; a timeout sends a ping where the operator has been silent for long.
unfoldable pub handle_incoming : Tick → Session → Incoming → Stepped
handle_incoming t s timeout =
    if should_send_telemetry_ping s.last_client_write t.now
    then (if is_some t.ping_error
        then record { session = s; written = []; error = t.ping_error }
        else goes_on_with (record s { last_client_write = t.now }) [])
    else goes_on_with s []
handle_incoming t s (broken e) = record { session = s; written = []; error = some e }
handle_incoming t s (packet header body) =
    if header / 16 == 3
    then handle_publish t s (mqtt_parse_publish header body)
    else goes_on_with s []

-- One run of the loop of consumeTelemetry.
unfoldable pub consume : Tick → Session → Stepped
consume t s =
    let (refreshed, error) = refresh t s in
    if is_some error
    then record { session = refreshed; written = []; error = error }
    else handle_incoming t refreshed t.incoming

-- The loop, over the ticks until an error or the end of the ticks, with all that was written.
unfoldable pub consume_telemetry : List Tick → Session → Stepped
consume_telemetry [] s = goes_on_with s []
consume_telemetry (t ∷ ticks) s =
    let step = consume t s in
    let rest = consume_telemetry ticks step.session in
    if is_some step.error then step else record rest { written = step.written ++ rest.written }

-- connectAndSubscribe: the new session, where the broker accepts the connection and the topics.
unfoldable pub connect_and_subscribe :
    Bridge → Outcome (List WasmFunction) → Option String → Time → Outcome Session
connect_and_subscribe b listed connection_error now = elim (telemetry_topics listed) [
  | err e ↦ err e
  | ok topics ↦ elim connection_error [
    | some e ↦ err e
    | none ↦
        ok (record { bridge = b; subscribed = topics; last_refresh = 0; last_client_write = now })
  ]
]
