-- ===== src/Telemetry/Session/Cover.antt =====
-- Every device is listened to (telemetryTopics, missingTopics and the refresh in consumeTelemetry of
-- edge/operator/internal/controller/mqtt_telemetry.go).
use sertay_thesis.Prelude.{
  ◌≡◌, ◌≢◌, refl, ap, sym, ◌∙◌, ◌-◌, ◌/◌, ◌==◌, leb, ◌≤◌, true, false, ◌||◌, Option, none, some,
  is_some, List, [], ◌∷◌, ◌++◌, arith, All, if-cases,
}
use sertay_thesis.Prelude.Text.{String, text_eq, text_eq_iff, text_eq_refl}
use sertay_thesis.Api.{WasmFunction}
use sertay_thesis.Artifact.Http.{ok}
use sertay_thesis.Mqtt.{Publish, publish, malformed, mqtt_parse_publish}
use sertay_thesis.Telemetry.{telemetry_topic_for_device}
use sertay_thesis.Telemetry.Session.{
  mqtt_telemetry_refresh_interval, insert_topic, topics_of, telemetry_topics, is_subscribed,
  missing_topics, Session, Incoming, timeout, broken, packet, Tick, Stepped, topics_or_error,
  subscribe_missing, refresh_with, refresh, handle_publish, handle_incoming, consume,
}

abbrev topic_of : WasmFunction → String
topic_of wf = telemetry_topic_for_device wf.spec.device

-- A device with a topic is listened to.
abbrev pub IsHeard : List String → WasmFunction → Type 0
IsHeard subscribed wf =
    text_eq (telemetry_topic_for_device wf.spec.device) "" ≡ false
    → is_subscribed (telemetry_topic_for_device wf.spec.device) subscribed ≡ true

is_subscribed-append :
    (x : String) (ss ts : List String)
    → is_subscribed x (ss ++ ts) ≡ (is_subscribed x ss || is_subscribed x ts)
unfolding is_subscribed
is_subscribed-append x [] ts = refl
is_subscribed-append x (s ∷ ss) ts = ground (arith, is_subscribed-append x ss ts)

is_subscribed-insert_topic :
    (x y : String) (ts : List String)
    → is_subscribed x (insert_topic y ts) ≡ (text_eq y x || is_subscribed x ts)
unfolding is_subscribed insert_topic
is_subscribed-insert_topic x y [] = ground arith
is_subscribed-insert_topic x y (t ∷ ts) =
    ground (arith, is_subscribed-insert_topic x y ts, text_eq_iff y t)

-- What is wanted is subscribed or missing.
is_subscribed-missing_topics :
    (x : String) (ts subscribed : List String)
    → is_subscribed x ts ≡ true
    → (is_subscribed x subscribed || is_subscribed x (missing_topics ts subscribed)) ≡ true
unfolding is_subscribed missing_topics
is_subscribed-missing_topics x [] subscribed h = ground (arith, h)
is_subscribed-missing_topics x (t ∷ ts) subscribed h =
    ground (arith, h, is_subscribed-missing_topics x ts subscribed, text_eq_iff t x)

topics_of-grows :
    (x : String) (wf : WasmFunction) (items : List WasmFunction)
    → is_subscribed x (topics_of items) ≡ true
    → is_subscribed x (topics_of (wf ∷ items)) ≡ true
unfolding topics_of
topics_of-grows x wf items h =
    ground (arith, h, is_subscribed-insert_topic x (topic_of wf) (topics_of items))

topics_of-head :
    (wf : WasmFunction) (items : List WasmFunction) → IsHeard (topics_of (wf ∷ items)) wf
unfolding topics_of
topics_of-head wf items given = ground (
  arith,
  given,
  is_subscribed-insert_topic (topic_of wf) (topic_of wf) (topics_of items),
  text_eq_refl (topic_of wf),
)

-- A larger set hears at least as much.
All-IsHeard :
    (ss ts : List String) (items : List WasmFunction)
    → ((x : String) → is_subscribed x ss ≡ true → is_subscribed x ts ≡ true)
    → All (IsHeard ss) items
    → All (IsHeard ts) items
All-IsHeard ss ts [] more h = tt
All-IsHeard ss ts (wf ∷ items) more h =
    ((λ given. more (topic_of wf) (h.0 given)), All-IsHeard ss ts items more h.1)

topics_of-IsHeard : (items : List WasmFunction) → All (IsHeard (topics_of items)) items
topics_of-IsHeard [] = tt
topics_of-IsHeard (wf ∷ items) = (
  topics_of-head wf items,
  All-IsHeard (topics_of items) (topics_of (wf ∷ items)) items (λ x. topics_of-grows x wf items)
      (topics_of-IsHeard items),
)

subscribe_missing-covers :
    (t : Tick) (s : Session) (missing : List String) (x : String)
    → (subscribe_missing t s missing).1 ≡ none
    → (is_subscribed x s.subscribed || is_subscribed x missing) ≡ true
    → is_subscribed x (subscribe_missing t s missing).0.subscribed ≡ true
unfolding subscribe_missing is_subscribed
subscribe_missing-covers t s [] x fine h = ground (arith, h)
subscribe_missing-covers t s (m ∷ missing) x fine h =
    ground (arith, fine, h, is_subscribed-append x s.subscribed (m ∷ missing))

publish-subscribed :
    (t : Tick) (s : Session) (p : Publish)
    → (handle_publish t s p).session.subscribed ≡ s.subscribed
unfolding handle_publish
publish-subscribed t s (malformed e) = refl
publish-subscribed t s (publish topic payload) =
    if-cases (λ (r : Stepped). r.session.subscribed ≡ s.subscribed)
      (is_subscribed (t.text_of topic) s.subscribed) (λ _. refl) (λ _. refl)

incoming-subscribed :
    (t : Tick) (s : Session) (i : Incoming)
    → (handle_incoming t s i).session.subscribed ≡ s.subscribed
unfolding handle_incoming
incoming-subscribed t s timeout = ground arith
incoming-subscribed t s (broken e) = refl
incoming-subscribed t s (packet header body) =
    if-cases (λ (r : Stepped). r.session.subscribed ≡ s.subscribed) (header / 16 == 3)
      (λ _. publish-subscribed t s (mqtt_parse_publish header body)) (λ _. refl)

refresh_with-covers :
    (t : Tick) (s : Session) (topics : List String) (x : String)
    → (refresh_with t s (topics_or_error topics)).1 ≡ none
    → is_subscribed x topics ≡ true
    → is_subscribed x (refresh_with t s (topics_or_error topics)).0.subscribed ≡ true
unfolding refresh_with is_subscribed
refresh_with-covers t s [] x fine h = absurd (ground (arith, h))
refresh_with-covers t s (y ∷ ys) x fine h =
    subscribe_missing-covers t s (missing_topics (y ∷ ys) s.subscribed) x fine
      (is_subscribed-missing_topics x (y ∷ ys) s.subscribed h)

refresh_due :
    (t : Tick) (s : Session) (items : List WasmFunction)
    → t.listed ≡ ok items
    → mqtt_telemetry_refresh_interval ≤ t.now - s.last_refresh
    → refresh t s ≡ refresh_with t s (topics_or_error (topics_of items))
unfolding refresh telemetry_topics
refresh_due t s items listed due =
    let passed : leb mqtt_telemetry_refresh_interval (t.now - s.last_refresh) ≡ true =
      ground (arith, due) in
    simp (passed, listed) refl

refresh-IsHeard :
    (t : Tick) (s : Session) (items : List WasmFunction)
    → t.listed ≡ ok items
    → mqtt_telemetry_refresh_interval ≤ t.now - s.last_refresh
    → (refresh t s).1 ≡ none
    → All (IsHeard (refresh t s).0.subscribed) items
refresh-IsHeard t s items listed due fine =
    let same = refresh_due t s items listed due in
    rw same (
      All-IsHeard (topics_of items) _ items
        (λ x h. refresh_with-covers t s (topics_of items) x (ap (λ r. r.1) (sym same) ∙ fine) h)
        (topics_of-IsHeard items))

is_some-none : {A : Type 0} (o : Option A) → is_some o ≡ false → o ≡ none
is_some-none none h = refl
is_some-none (some a) h = absurd (ground (arith, h))

some-not_none : {A : Type 0} (o : Option A) → is_some o ≡ true → o ≢ none
some-not_none none h same = absurd (ground (arith, h))
some-not_none (some a) h same = ground (arith, same)

-- Where the subscriptions are due for a refresh and the resources can be listed, a run of the loop
-- that ends without an error leaves the session subscribed to the topic of every resource that has
-- one.
pub consume-IsHeard :
    (t : Tick) (s : Session) (items : List WasmFunction)
    → t.listed ≡ ok items
    → mqtt_telemetry_refresh_interval ≤ t.now - s.last_refresh
    → (consume t s).error ≡ none
    → All (IsHeard (consume t s).session.subscribed) items
unfolding consume
consume-IsHeard t s items listed due fine =
    let refreshed = refresh t s in
    if-cases (λ (r : Stepped). r.error ≡ none → All (IsHeard r.session.subscribed) items)
      (is_some refreshed.1) (λ broke fine. absurd (some-not_none refreshed.1 broke fine))
      (λ went fine.
        rw (incoming-subscribed t refreshed.0 t.incoming)
          (refresh-IsHeard t s items listed due (is_some-none refreshed.1 went)))
      fine
