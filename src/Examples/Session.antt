-- ===== src/Examples/Session.antt =====
-- The theorems on a session of the telemetry bridge, at two reports of more than 100 percent.
use sertay_thesis.Prelude.{◌≡◌, ◌*◌, refl, none, some, [], ◌∷◌, All, arith}
use sertay_thesis.Prelude.Int.{pos}
use sertay_thesis.Prelude.Text.{trim_space}
use sertay_thesis.Prelude.Time.{second}
use sertay_thesis.Prelude.Maps.{namespaced_name_eq}
use sertay_thesis.Policy.{effective_battery_delta_window_seconds}
use sertay_thesis.Window.{kept_since}
use sertay_thesis.Telemetry.{telemetry_topic_for_device, BatteryTelemetry}
use sertay_thesis.Telemetry.Drain.{applicable}
use sertay_thesis.Telemetry.Drain.Spec.{follows, goes_on, streak, streak_window, spec_state}
use sertay_thesis.Telemetry.Update.Observed.{TracksPercents}
use sertay_thesis.Telemetry.Update.Retry.{attempts}
use sertay_thesis.Artifact.Http.{ok}
use sertay_thesis.Mqtt.{mqtt_parse_publish, parse_topic}
use sertay_thesis.Telemetry.Session.{
  Session, Tick, packet, insert_topic, topics_of, telemetry_topics, is_subscribed, missing_topics,
  subscribe_missing, refresh_with, refresh, handle_publish, handle_incoming, consume,
  consume_telemetry,
}
use sertay_thesis.Telemetry.Session.Trace.{IsClean, consume_telemetry-IsClean}
use sertay_thesis.Telemetry.Session.Cover.{IsHeard, consume-IsHeard}
use sertay_thesis.Examples.Telemetry.{draining, report, bridge}

-- A report of 130 percent, with a conflict.
abbrev overfull : BatteryTelemetry
overfull = record report { battery_percent = some (pos 130) }

bridge-TracksPercents : TracksPercents bridge
unfolding spec_state streak_window streak goes_on follows applicable kept_since
    effective_battery_delta_window_seconds
bridge-TracksPercents = (
  (
    record { low = omega arith; high = omega arith },
    (record { low = omega arith; high = omega arith }, tt),
  ),
  tt,
)

-- The broker delivers the report; the topic of the device was subscribed before.
abbrev session : Session
session = record {
  bridge = bridge;
  subscribed = "sif/esp32/telemetry" ∷ [];
  last_refresh = 0;
  last_client_write = 39 * second;
}

abbrev tick : Tick
tick = record {
  now = 40 * second;
  listed = ok (draining ∷ []);
  subscribe_error = none;
  incoming = packet 48 (0 ∷ 1 ∷ 97 ∷ 123 ∷ 125 ∷ []);
  ping_error = none;
  text_of = λ _. "sif/esp32/telemetry";
  unmarshal = λ _. (overfull, none);
  list_error = none;
  items = (draining, attempts draining (40 * second ∷ []) (41 * second)) ∷ [];
}

consume_telemetry-IsClean_example : IsClean (consume_telemetry (tick ∷ tick ∷ []) session)
consume_telemetry-IsClean_example =
    consume_telemetry-IsClean (tick ∷ tick ∷ []) session bridge-TracksPercents

-- The same session before any subscription.
abbrev deaf : Session
deaf = record session { subscribed = [] }

fine : (consume tick deaf).error ≡ none
unfolding consume refresh telemetry_topics topics_of insert_topic telemetry_topic_for_device
    trim_space refresh_with missing_topics is_subscribed subscribe_missing handle_incoming
    mqtt_parse_publish parse_topic handle_publish
fine = refl

consume-IsHeard_example : All (IsHeard (consume tick deaf).session.subscribed) (draining ∷ [])
consume-IsHeard_example = consume-IsHeard tick deaf (draining ∷ []) refl (omega arith) fine
