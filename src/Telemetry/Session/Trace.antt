-- ===== src/Telemetry/Session/Trace.antt =====
-- What holds along a session of the telemetry bridge (consumeTelemetry of
-- edge/operator/internal/controller/mqtt_telemetry.go).
use sertay_thesis.Prelude.{
  ◌≡◌, refl, ◌-◌, ◌/◌, ◌==◌, leb, Option, is_some, List, [], ◌∷◌, arith, All, All-append, if-cases,
}
use sertay_thesis.Prelude.Text.{String}
use sertay_thesis.Artifact.Http.{Outcome, ok, err}
use sertay_thesis.Mqtt.{Publish, publish, malformed, mqtt_parse_publish}
use sertay_thesis.Telemetry.Update.Observed.{
  TracksPercents, IsObserved, apply_battery_telemetry-IsObserved,
}
use sertay_thesis.Telemetry.Session.{
  mqtt_telemetry_refresh_interval, telemetry_topics, is_subscribed, missing_topics,
  should_send_telemetry_ping, Session, Incoming, timeout, broken, packet, Tick, Stepped,
  subscribe_missing, refresh_with, refresh, handle_publish, handle_incoming, consume,
  consume_telemetry,
}

-- The session and what was written.
abbrev pub IsClean : Stepped → Type 0
IsClean step = TracksPercents step.session.bridge × All IsObserved step.written

subscribe_missing-bridge :
    (t : Tick) (s : Session) (topics : List String)
    → (subscribe_missing t s topics).0.bridge ≡ s.bridge
unfolding subscribe_missing
subscribe_missing-bridge t s [] = refl
subscribe_missing-bridge t s (topic ∷ topics) = ground arith

refresh_with-bridge :
    (t : Tick) (s : Session) (o : Outcome (List String)) → (refresh_with t s o).0.bridge ≡ s.bridge
unfolding refresh_with
refresh_with-bridge t s (err e) = refl
refresh_with-bridge t s (ok topics) =
    subscribe_missing-bridge t s (missing_topics topics s.subscribed)

refresh-bridge : (t : Tick) (s : Session) → (refresh t s).0.bridge ≡ s.bridge
unfolding refresh
refresh-bridge t s =
    if-cases (λ (r : Session × Option String). r.0.bridge ≡ s.bridge)
      (leb mqtt_telemetry_refresh_interval (t.now - s.last_refresh))
      (λ _. refresh_with-bridge t s (telemetry_topics t.listed)) (λ _. refl)

publish-IsClean :
    (t : Tick) (s : Session) (p : Publish)
    → TracksPercents s.bridge
    → IsClean (handle_publish t s p)
unfolding handle_publish
publish-IsClean t s (malformed e) h = (h, tt)
publish-IsClean t s (publish topic payload) h =
    if-cases IsClean (is_subscribed (t.text_of topic) s.subscribed)
      (λ _.
        apply_battery_telemetry-IsObserved (t.unmarshal payload).1 t.list_error t.items s.bridge
          (t.text_of topic) (t.unmarshal payload).0 h)
      (λ _. (h, tt))

incoming-IsClean :
    (t : Tick) (s : Session) (i : Incoming)
    → TracksPercents s.bridge
    → IsClean (handle_incoming t s i)
unfolding handle_incoming
incoming-IsClean t s timeout h =
    if-cases IsClean (should_send_telemetry_ping s.last_client_write t.now)
      (λ _. if-cases IsClean (is_some t.ping_error) (λ _. (h, tt)) (λ _. (h, tt))) (λ _. (h, tt))
incoming-IsClean t s (broken e) h = (h, tt)
incoming-IsClean t s (packet header body) h =
    if-cases IsClean (header / 16 == 3)
      (λ _. publish-IsClean t s (mqtt_parse_publish header body) h) (λ _. (h, tt))

consume-IsClean : (t : Tick) (s : Session) → TracksPercents s.bridge → IsClean (consume t s)
unfolding consume
consume-IsClean t s h =
    let kept : TracksPercents (refresh t s).0.bridge = rw (refresh-bridge t s) h in
    if-cases IsClean (is_some (refresh t s).1) (λ _. (kept, tt))
      (λ _. incoming-IsClean t (refresh t s).0 t.incoming kept)

-- Along a whole session, whatever the broker sends and whatever the API server answers, with any
-- conflicts and errors: if the drain tracker holds percentages at its start, it does so at the end,
-- and every resource that was stored has a battery percentage from 0 to 100 and a fall of the
-- battery from 0 to 100 or none.
pub consume_telemetry-IsClean :
    (ticks : List Tick) (s : Session)
    → TracksPercents s.bridge
    → IsClean (consume_telemetry ticks s)
unfolding consume_telemetry
consume_telemetry-IsClean [] s h = (h, tt)
consume_telemetry-IsClean (t ∷ ticks) s h =
    let step = consume-IsClean t s h in
    let rest = consume_telemetry-IsClean ticks (consume t s).session step.0 in
    if-cases IsClean (is_some (consume t s).error) (λ _. step)
      (λ _. (
        rest.0,
        All-append IsObserved (consume t s).written
            (consume_telemetry ticks (consume t s).session).written step.1 rest.1,
      ))
