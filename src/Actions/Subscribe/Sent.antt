-- ===== src/Actions/Subscribe/Sent.antt =====
-- What becomes of the topics that are subscribed to, or no longer.
use Prim.Native.Nat.{bit_or}
use artemisia.Base.{
  ℕ, ◌≤◌, ◌<◌, ◌≡◌, refl, sym, ap, ◌∙◌, arith, Bool, true, Option, none, some, List, [], ◌∷◌, ◌++◌,
  Bytes, Rc, ℤ, length, ltb, if-false, is_failure, is_failure-success, All,
}
use artemisia.State.{Protocol, is_mqtt5}
use artemisia.Packet.Encode.{varint_limit}
use artemisia.Utf8.{code, validate_utf8}
use artemisia.Actions.Publish.Checked.{is_refused-success}
use artemisia.Topic.Levels.{levels, is_filter}
use artemisia.Topic.CheckLaws.{IsText, verdict, sub_topic_check_lem}
use artemisia.Property.Defs.{Property}
use artemisia.Property.Command
use artemisia.Property.Wire.{EncodedAll}
use artemisia.Messages.{mid_generate}
use artemisia.Messages.Defs.{Client}
use artemisia.Outgoing.Defs.{Outgoing}
use artemisia.Outgoing.Stream.{IsStream}
use artemisia.Incoming.Frame.{frame}
use artemisia.Senders.Puts.{Puts}
use artemisia.Senders.Request.{send_subscribe, send_unsubscribe}
use artemisia.Senders.Request.Wire.{
  IsShort, request_wire, send_subscribe-Puts, send_unsubscribe-Puts,
}
use artemisia.Actions.{
  Actor, World, outgoing_properties, valid_qos, refuse-false, first_failure-All,
}
use artemisia.Actions.Publish.Sent.{Sends, Sends-by, Puts-Sends}
use artemisia.Actions.Subscribe.{
  all_topic_tests, request_tests, subscribe_tests, subscribe_checks, subscribe_at,
  subscribe_multiple, unsubscribe_tests, unsubscribe_checks, unsubscribe_multiple, kept_options,
  requested,
}

-- A text that is a topic filter, but that it may be empty: valid UTF-8 of at most 65535 bytes, whose
-- wildcards stand where MQTT lets them.
abbrev pub IsFilter : Bytes → Type 0
IsFilter sub =
    (is_filter (levels sub) ≡ true)
    × (length sub ≤ 65535)
    × (validate_utf8 (some (sub ++ (0 ∷ []))) (length sub) ≡ code Rc.success)

All-split : {A : Type 0} (P : A → Type 0) (xs ys : List A) → All P (xs ++ ys) → All P xs × All P ys
All-split P [] ys h = (tt, h)
All-split P (x ∷ xs) ys (hx, h) = let (k, l) = All-split P xs ys h in ((hx, k), l)

abbrev pub IsFine : Rc → Type 0
IsFine rc = rc ≡ Rc.success

all_topic_tests-IsFilter :
    (subs : List Bytes) → All IsText subs → All IsFine (all_topic_tests subs) → All IsFilter subs
unfolding all_topic_tests
all_topic_tests-IsFilter [] t h = tt
all_topic_tests-IsFilter (sub ∷ subs) (here, t) (name, (text, h)) =
    let v : verdict (is_filter (levels sub)) (length sub) ≡ Rc.success =
      sym (sub_topic_check_lem sub here)
      ∙ is_failure-success _ (refuse-false _ Rc.inval refl name) in
    let valid = is_refused-success _ (refuse-false _ Rc.malformed_utf8 refl text) in
    ((ground (arith, v), ground (arith, v), valid), all_topic_tests-IsFilter subs t h)

IsFilter-IsShort : (subs : List Bytes) → All IsFilter subs → All IsShort subs
IsFilter-IsShort [] h = tt
IsFilter-IsShort (sub ∷ subs) ((f, short, valid), h) = (omega arith, IsFilter-IsShort subs h)

request_tests-IsFilter :
    (a : Actor) (command extra : ℕ) (subs : List Bytes) (properties : List Property)
    → All IsText subs
    → All IsFine (request_tests a command extra subs properties)
    → All IsFilter subs
request_tests-IsFilter a command extra subs properties t (listed, h) =
    let (topics, room) = All-split IsFine (all_topic_tests subs) _ h in
    all_topic_tests-IsFilter subs t topics

-- The encoded properties, and a packet that is not too long.
pub record IsFitting (a : Actor) (properties : List Property) (props behind : Bytes)
    (subs : List Bytes) : Type 0 where
  pub encoded : EncodedAll (outgoing_properties properties) props
  pub few : length props < varint_limit
  pub fits : length (request_wire (is_mqtt5 a.protocol) 0 props behind subs) < varint_limit

valid_qos-some : (qos : ℕ) → qos ≤ 2 → valid_qos (ℤ.pos qos) ≡ some qos
valid_qos-some qos h = if-false (ltb 2 qos) none (some qos) (ground arith)

requested-Sends :
    (r : Option (Outgoing × Rc) × Client) (a : Actor) (bs : Bytes) (c : Client)
    → Puts (r.0) a.out bs
    → r.1 ≡ c
    → Sends (requested a r) a bs c
requested-Sends (result, c') a bs c puts same =
    let (a', rc, e, stream, kept, messages) = Puts-Sends result a bs c' puts in
    (a', rc, e, stream, kept, messages ∙ same)

-- The options of a subscription, which the versions before MQTT 5 do not have.
abbrev pub options_of : Protocol → ℕ → ℕ
options_of Protocol.mqtt31 options = 0
options_of Protocol.mqtt311 options = 0
options_of protocol options = options

kept_options-options_of :
    (protocol : Protocol) (options : ℕ)
    → kept_options protocol options ≡ options_of protocol options
kept_options-options_of Protocol.mqtt31 options = refl
kept_options-options_of Protocol.mqtt311 options = refl
kept_options-options_of _ options = refl

-- With memory, `mosquitto_subscribe_multiple` takes topics without a NUL that it does not refuse,
-- each of which is valid UTF-8 of at most 65535 bytes with the wildcards where MQTT lets them (the
-- empty topic included, which MQTT forbids), and puts one SUBSCRIBE with the next identifier and all of them behind all that is sent and that waits. The
-- byte behind a topic is the QoS with the options, which are 0 before MQTT 5.
pub subscribe_multiple-Sends :
    (world : World) (subs : List Bytes) (qos n options : ℕ) (properties : List Property)
    (props : Bytes) (a : Actor)
    → All IsText subs
    → qos ≤ 2
    → subscribe_checks a subs (ℤ.pos qos) options properties ≡ Rc.success
    → n ≡ bit_or qos (options_of a.protocol options)
    → n < 256
    → world.mem 0 ≡ true
    → world.mem 1 ≡ true
    → IsFitting a properties props (n ∷ []) subs
    → IsStream a.out
    → (let (mid, c) = mid_generate a.messages in
        All IsFilter subs
        × Sends
            (subscribe_multiple world subs (ℤ.pos qos) options properties a)
            a
            (frame 0x82 (request_wire (is_mqtt5 a.protocol) mid props (n ∷ []) subs))
            c)
unfolding subscribe_multiple subscribe_checks
subscribe_multiple-Sends world subs qos n options properties props a text small checks byte fits
      mem0 mem1 h stream =
    let (some_, (version, (level, (opts, (open_, tests))))) =
      first_failure-All (subscribe_tests a subs (ℤ.pos qos) options properties) checks in
    let filters = request_tests-IsFilter a Command.subscribe 1 subs properties text tests in
    let (puts, c) =
      send_subscribe-Puts a.protocol subs n (outgoing_properties properties) props world.now
        world.replies a.out a.messages fits
        (record {
          encoded = h.encoded;
          short = IsFilter-IsShort subs filters;
          few = h.few;
          fits = h.fits;
        })
        stream in
    let send = λ (k : ℕ) (m1 m2 : Bool). requested a (
      send_subscribe a.protocol subs k (outgoing_properties properties) m1 m2 world.now
        world.replies a.out a.messages) in
    let step =
      if-false (is_failure (subscribe_checks a subs (ℤ.pos qos) options properties)) _ _
        (ap is_failure checks)
      ∙ ap (λ q. subscribe_at world subs q options properties a) (valid_qos-some qos small)
      ∙ ap (λ k. send k (world.mem 0) (world.mem 1))
          (ap (bit_or qos) (kept_options-options_of a.protocol options) ∙ sym byte)
      ∙ ap (λ m. send n m (world.mem 1)) mem0
      ∙ ap (λ m. send n true m) mem1 in
    (filters, Sends-by _ _ a _ _ step (requested-Sends _ a _ _ puts c))

-- The same for `mosquitto_unsubscribe_multiple` and one UNSUBSCRIBE, where nothing stands behind a
-- topic, and there may be no topics.
pub unsubscribe_multiple-Sends :
    (world : World) (subs : List Bytes) (properties : List Property) (props : Bytes) (a : Actor)
    → All IsText subs
    → unsubscribe_checks a subs properties ≡ Rc.success
    → world.mem 0 ≡ true
    → world.mem 1 ≡ true
    → IsFitting a properties props [] subs
    → IsStream a.out
    → (let (mid, c) = mid_generate a.messages in
        All IsFilter subs
        × Sends
            (unsubscribe_multiple world subs properties a)
            a
            (frame 0xa2 (request_wire (is_mqtt5 a.protocol) mid props [] subs))
            c)
unfolding unsubscribe_multiple unsubscribe_checks
unsubscribe_multiple-Sends world subs properties props a text checks mem0 mem1 h stream =
    let (version, (open_, tests)) =
      first_failure-All (unsubscribe_tests a subs properties) checks in
    let filters = request_tests-IsFilter a Command.unsubscribe 0 subs properties text tests in
    let (puts, c) =
      send_unsubscribe-Puts a.protocol subs (outgoing_properties properties) props world.now
        world.replies a.out a.messages
        (record {
          encoded = h.encoded;
          short = IsFilter-IsShort subs filters;
          few = h.few;
          fits = h.fits;
        })
        stream in
    let send = λ (m1 m2 : Bool). requested a (
      send_unsubscribe a.protocol subs (outgoing_properties properties) m1 m2 world.now
        world.replies a.out a.messages) in
    let step =
      if-false (is_failure (unsubscribe_checks a subs properties)) _ _ (ap is_failure checks)
      ∙ ap (λ m. send m (world.mem 1)) mem0
      ∙ ap (λ m. send true m) mem1 in
    (filters, Sends-by _ _ a _ _ step (requested-Sends _ a _ _ puts c))
