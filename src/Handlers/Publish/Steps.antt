-- ===== src/Handlers/Publish/Steps.antt =====
-- The steps of handle__publish for a message of QoS 2.
use artemisia.Base.{
  ℕ, suc, ◌^◌, ◌<◌, ◌≡◌, refl, sym, ap, ◌∙◌, arith, inl, inr, true, false, Bool-cases,
}
use artemisia.Base.{some, List, [], ◌∷◌, ◌++◌, Bytes, Rc, ◌==◌, length}
use mathlib.Core.List.{append-nil}
use artemisia.State.{is_active, is_mqtt5}
use artemisia.Utf8.{code, validate_utf8}
use artemisia.Packet.Defs.{Packet, done, M, advance, IsReadable}
use artemisia.Packet.Encode.{uint16_bytes, binary_bytes}
use artemisia.Packet.Unread.{unread, Reads, length-unread, unread-advance_rest, advance-IsReadable}
use artemisia.Packet.Read.{read_bytes, read_string}
use artemisia.Packet.Read.Laws.{read_uint16-Reads, read_string-Reads, read_bytes-Reads}
use artemisia.Property.Command
use artemisia.Messages.Defs.{MsgState, Message, MsgData}
use artemisia.Messages.{append_to, decrement_quota, message_queue, release_to_inflight}
use artemisia.Handlers.Defs.{
  Event, Session, Env, next, ◌>>=◌, ◌>>◌, on_packet, demand, demand_active,
}
use artemisia.Handlers.{read_mid, read_properties, send_pubrec}
use artemisia.Handlers.Publish.{
  new_message, qos_of, handle_publish, read_payload, read_publish_mid, take_message, queue_incoming,
  payload_length,
}

-- The client has a connection without MQTT 5, and its packet has this command and these bytes left.
pub record Brings (s : Session) (body : Bytes) : Type 0 where
  pub readable : IsReadable s.in_packet
  pub rest : unread s.in_packet ≡ body
  pub active : is_active s.state ≡ true
  pub version : is_mqtt5 s.protocol ≡ false

-- One read of a packet, and what is left.
pub on_packet-Reads :
    {A : Type 0} (m : M A) (bs r : Bytes) (v : A) (s : Session)
    → Reads m bs v
    → IsReadable s.in_packet
    → unread s.in_packet ≡ bs ++ r
    → on_packet m s ≡ next v (record s { in_packet = advance (length bs) s.in_packet })
on_packet-Reads m bs r v s reads ok e = rw (reads s.in_packet r ok e)

pub read_mid_lem :
    (mid : ℕ) (r : Bytes) (s : Session)
    → 0 < mid
    → mid < 2 ^ 16
    → IsReadable s.in_packet
    → unread s.in_packet ≡ uint16_bytes mid ++ r
    → read_mid s ≡ next mid (record s { in_packet = advance 2 s.in_packet })
unfolding read_mid
read_mid_lem mid r s h k ok e =
    let nonzero : (mid == 0) ≡ false = ground arith in
    rw (read_uint16-Reads mid k s.in_packet r ok e, ◌>>=◌, nonzero)

length-nil : (bs : Bytes) → length bs ≡ 0 → bs ≡ []
length-nil [] h = refl
length-nil (b ∷ bs) h = absurd (omega arith)

payload_length_lem : (p : Packet) → IsReadable p → payload_length p ≡ length (unread p)
payload_length_lem p ok = omega (arith, length-unread p ok, ok.within, ok.bounded)

-- All that is left is the payload.
read_payload_lem :
    (env : Env) (s : Session)
    → env.mem 2 ≡ true
    → IsReadable s.in_packet
    → (p : Packet) × (read_payload env s ≡ next (unread s.in_packet) (record s { in_packet = p }))
unfolding read_payload
read_payload_lem env s mem ok = elim (Bool-cases (payload_length s.in_packet == 0)) [
  | inl none_ ↦
      let empty : unread s.in_packet ≡ [] =
        length-nil (unread s.in_packet) (ground (arith, payload_length_lem s.in_packet ok)) in
      rw (none_, empty) (s.in_packet, refl)
  | inr some_ ↦
      let same = payload_length_lem s.in_packet ok in
      let body = unread s.in_packet in
      let reads =
        on_packet-Reads (read_bytes (length body)) body [] body s (read_bytes-Reads body) ok
          (sym (append-nil body)) in
      (
        advance (length body) s.in_packet,
        rw (some_, mem, same, read_bytes-Reads body s.in_packet [] ok (sym (append-nil body))),
      )
]

-- What a message of QoS 2 is queued as.
abbrev pub waiting : Env → ℕ → ℕ → Bytes → Bytes → Message
waiting env header mid topic payload = record (new_message env header mid (some topic) payload) {
  properties = [];
  state = MsgState.wait_for_pubrel;
}

abbrev pub log_more : List Event → Session → Session
log_more es s = record s { events = s.events ++ es }

abbrev pub set_in : MsgData → Session → Session
set_in d s = record s { messages = record (s.messages) { msgs_in = d } }

-- The queue behind a message of QoS 2: a place of the quota is taken.
abbrev pub charged : Message → MsgData → MsgData
charged m d = append_to m (record d { inflight_quota = decrement_quota d.inflight_quota })

-- The steps of `handle__publish` for QoS 2, each of which succeeds.
handle_publish_step :
    (env : Env) (mid n : ℕ) (topic payload : Bytes) (s : Session) (p1 p2 p3 : Packet)
    → qos_of s.in_packet.command ≡ 2
    → ((i : ℕ) → env.mem i ≡ true)
    → is_active s.state ≡ true
    → is_mqtt5 s.protocol ≡ false
    → read_string true s.in_packet ≡ done (some topic, suc n) p1
    → read_mid (record s { in_packet = p1 }) ≡ next mid (record s { in_packet = p2 })
    → read_payload env (record s { in_packet = p2 }) ≡ next payload (record s { in_packet = p3 })
    → handle_publish env s
      ≡ next (env.answer Command.pubrec mid) (
          log_more (Event.sent Command.pubrec mid 0 ∷ []) (
            set_in
              (charged (waiting env s.in_packet.command mid topic payload) s.messages.msgs_in)
              (record s { in_packet = p3 })))
unfolding handle_publish read_publish_mid take_message queue_incoming send_pubrec message_queue
    release_to_inflight read_properties
handle_publish_step env mid n topic payload s p1 p2 p3 qos mem active version text id body =
    let filled : (suc n == 0) ≡ false = ground arith in
    rw (
      demand_active,
      ◌>>=◌,
      ◌>>◌,
      demand,
      active,
      mem 0,
      mem 1,
      on_packet,
      text,
      filled,
      qos,
      version,
      id,
      version,
      body,
      qos,
    )

pub record PublishOf (env : Env) (header mid b : ℕ) (topic : Bytes) : Type 0 where
  pub qos : qos_of header ≡ 2
  pub mem : (i : ℕ) → env.mem i ≡ true
  pub positive : 0 < mid
  pub small : mid < 2 ^ 16
  pub short : length (b ∷ topic) < 2 ^ 16
  pub text : validate_utf8 (some ((b ∷ topic) ++ (0 ∷ []))) (length (b ∷ topic)) ≡ code Rc.success

-- A PUBLISH of QoS 2 is queued, takes a place of the quota, and is answered by a PUBREC; it is not
-- passed on yet.
pub handle_publish_lem :
    (env : Env) (mid b : ℕ) (topic payload : Bytes) (s : Session)
    → PublishOf env s.in_packet.command mid b topic
    → Brings s (binary_bytes (b ∷ topic) ++ (uint16_bytes mid ++ payload))
    → (p : Packet) × (handle_publish env s
        ≡ next (env.answer Command.pubrec mid) (
            log_more (Event.sent Command.pubrec mid 0 ∷ []) (
              set_in
                (charged
                  (waiting env s.in_packet.command mid (b ∷ topic) payload)
                  s.messages.msgs_in)
                (record s { in_packet = p }))))
handle_publish_lem env mid b topic payload s h brings =
    let bytes = binary_bytes (b ∷ topic) in
    let text =
      read_string-Reads b topic h.short h.text s.in_packet (uint16_bytes mid ++ payload)
        brings.readable brings.rest in
    let p1 = advance (length bytes) s.in_packet in
    let ok1 =
      advance-IsReadable s.in_packet bytes (uint16_bytes mid ++ payload) brings.readable
        brings.rest in
    let rest1 = unread-advance_rest s.in_packet bytes (uint16_bytes mid ++ payload) brings.rest in
    let s1 = record s { in_packet = p1 } in
    let id = read_mid_lem mid payload s1 h.positive h.small ok1 rest1 in
    let ok2 = advance-IsReadable p1 (uint16_bytes mid) payload ok1 rest1 in
    let rest2 = unread-advance_rest p1 (uint16_bytes mid) payload rest1 in
    let s2 = record s { in_packet = advance 2 p1 } in
    let (p3, body) = read_payload_lem env s2 (h.mem 2) ok2 in
    (
      p3,
      handle_publish_step env mid (length topic) (b ∷ topic) payload s p1 (advance 2 p1) p3 h.qos
          h.mem brings.active brings.version text id
          (body ∙ ap (λ x. next x (record s { in_packet = p3 })) rest2),
    )
