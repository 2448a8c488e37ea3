-- ===== src/Handlers/Publish/Transfer.antt =====
-- A message of QoS 2 on its whole way: send__publish of one client, the bytes on the wire,
-- packet__read of another client, and its handle__packet and handle__publish.
use artemisia.Base.{
  ℕ, ◌+◌, ◌*◌, ◌-◌, ◌/◌, ◌%◌, ◌^◌, ◌<◌, ◌≡◌, ◌≢◌, refl, sym, ap, ◌∙◌, arith, Bool, true, false,
  some, List, [], ◌∷◌, ◌++◌, Bytes, Rc, length, take, take-length, ◌==◌,
}
use mathlib.Core.Path.{subst}
use artemisia.State.{Protocol, is_active, is_mqtt5}
use artemisia.Utf8.{code, validate_utf8}
use artemisia.Packet.Defs.{Packet, IsReadable}
use artemisia.Packet.Encode.{uint16_bytes, binary_bytes, varint_limit}
use artemisia.Packet.Unread.{unread}
use artemisia.Property.Command
use artemisia.Property.Write.{bytes_of}
use artemisia.Messages.Defs.{Message, MsgState}
use artemisia.Outgoing.Defs.{Outgoing, Reply}
use artemisia.Outgoing.{check_oversize}
use artemisia.Outgoing.Stream.{IsStream}
use artemisia.Incoming.{Incoming, handled}
use artemisia.Incoming.Socket.{Arrival}
use artemisia.Incoming.Feeds.{Holds}
use artemisia.Incoming.Frame.{IsClean, frame}
use artemisia.Incoming.Delivery.{Delivers, IsConnected, at, calls, packet_read-Delivers}
use artemisia.Senders.Puts.{Puts}
use artemisia.Senders.Publish.{Args, bit, publish_command, send_publish}
use artemisia.Senders.Publish.Wire.{Listed, IsPublish, publish_wire, send_publish-frame}
use artemisia.Handlers.Defs.{Event, Session, Env, Step, next}
use artemisia.Handlers.Replies.{handle_packet}
use artemisia.Handlers.Publish.{handle_publish, qos_of, dup_of, retain_of}
use artemisia.Handlers.Publish.Steps.{waiting, log_more, set_in, charged, handle_publish_lem}

-- The message as the receiver keeps it.
abbrev pub arrived : Env → Args → Message
arrived env a = record {
  mid = a.mid;
  topic = bytes_of a.topic;
  payload = a.payload;
  qos = 2;
  retain = a.retain;
  properties = [];
  timestamp = env.now;
  state = MsgState.wait_for_pubrel;
  dup = a.dup;
  expiry_interval = 0;
}

-- The client of the receiver takes the message in, and answers it.
abbrev pub taken_in : Env → Args → Session → Packet → Step Rc
taken_in env a s p = next (env.answer Command.pubrec a.mid) (
    log_more (Event.sent Command.pubrec a.mid 0 ∷ [])
      (set_in (charged (arrived env a) s.messages.msgs_in) (record s { in_packet = p })))

-- A message of QoS 2 for a receiver without MQTT 5 that has memory.
pub record IsTransfer (env : Env) (a : Args) (s : Session) : Type 0 where
  pub b : ℕ
  pub text : Bytes
  pub topic : a.topic ≡ some (b ∷ text)
  pub valid : validate_utf8 (some ((b ∷ text) ++ (0 ∷ []))) (length (b ∷ text)) ≡ code Rc.success
  pub qos : a.qos ≡ 2
  pub positive : 0 < a.mid
  pub small : a.mid < 2 ^ 16
  pub mem : (i : ℕ) → env.mem i ≡ true
  pub active : is_active s.state ≡ true
  pub version : is_mqtt5 s.protocol ≡ false

-- The flags of the command are read back.
flags :
    (dup retain : Bool)
    → (let command = 0x30 + 8 * bit dup + 2 * 2 + bit retain in
        (command / 16 % 16 * 16 ≡ 0x30)
        × (qos_of command ≡ 2)
        × (dup_of command ≡ dup)
        × (retain_of command ≡ retain)
        × ((command == 0) ≡ false))
flags true true = (refl, refl, refl, refl, refl)
flags true false = (refl, refl, refl, refl, refl)
flags false true = (refl, refl, refl, refl, refl)
flags false false = (refl, refl, refl, refl, refl)

handle_packet-publish :
    (env : Env) (s : Session)
    → s.in_packet.command / 16 % 16 * 16 ≡ 0x30
    → handle_packet env s ≡ handle_publish env s
unfolding handle_packet
handle_packet-publish env s e = rw e refl

Holds-IsReadable :
    (cmd : ℕ) (body : Bytes) (q : Packet)
    → Holds cmd body q
    → length body < varint_limit
    → IsReadable (record q { pos = 0 }) × (unread (record q { pos = 0 }) ≡ body)
unfolding unread
Holds-IsReadable cmd body q h fits =
    let same : length q.payload ≡ length body = ap length h.payload in
    let whole : q.remaining_length - 0 ≡ length q.payload = omega (arith, h.remaining, same) in
    (
      record {
        within = omega arith;
        backed = omega (arith, h.remaining, same);
        bounded = omega (arith, h.remaining);
      },
      ap (λ n. take n q.payload) whole ∙ take-length q.payload ∙ h.payload,
    )

waiting-arrived :
    (env : Env) (a : Args) (command b : ℕ) (text : Bytes)
    → a.topic ≡ some (b ∷ text)
    → qos_of command ≡ 2
    → dup_of command ≡ a.dup
    → retain_of command ≡ a.retain
    → waiting env command a.mid (b ∷ text) a.payload ≡ arrived env a
waiting-arrived env a command b text topic qos dup retain = λ i. record (arrived env a) {
  topic = sym (ap bytes_of topic) i;
  qos = qos i;
  retain = retain i;
  dup = dup i;
}

-- The receiver's half: the packet that has come in is a PUBLISH, and its message is kept.
handle_packet-taken_in :
    (env : Env) (a : Args) (l : Listed a) (s : Session) (q : Packet)
    → IsTransfer env a s
    → IsPublish false a l
    → Holds (publish_command a) (publish_wire false a l) q
    → (p : Packet) × (handle_packet env (record s { in_packet = record q { pos = 0 } })
        ≡ taken_in env a s p)
handle_packet-taken_in env a l s q h publish holds =
    let s' = record s { in_packet = record q { pos = 0 } } in
    let command : q.command ≡ 0x30 + 8 * bit a.dup + 2 * 2 + bit a.retain =
      holds.command ∙ ap (λ n. 0x30 + 8 * bit a.dup + 2 * n + bit a.retain) h.qos in
    let (kind, two, dup, retain, nonzero) = flags a.dup a.retain in
    let qos = ap qos_of command ∙ two in
    let wire : publish_wire false a l
        ≡ binary_bytes (h.b ∷ h.text) ++ (uint16_bytes a.mid ++ a.payload) =
      rw (h.topic, h.qos) refl in
    let (readable, rest) =
      Holds-IsReadable (publish_command a) (publish_wire false a l) q holds publish.fits in
    let short : length (h.b ∷ h.text) < 2 ^ 16 =
      omega (arith, publish.topic, ap (λ t. length (bytes_of t)) h.topic) in
    let (p, kept) =
      handle_publish_lem env a.mid h.b h.text a.payload s'
        (record {
          qos = qos;
          mem = h.mem;
          positive = h.positive;
          small = h.small;
          short = short;
          text = h.valid;
        })
        (record {
          readable = readable;
          rest = rest ∙ wire;
          active = h.active;
          version = h.version;
        }) in
    let message =
      waiting-arrived env a q.command h.b h.text h.topic qos (ap dup_of command ∙ dup)
        (ap retain_of command ∙ retain) in
    let built = λ (m : Message). next (env.answer Command.pubrec a.mid) (
      log_more (Event.sent Command.pubrec a.mid 0 ∷ [])
        (set_in (charged m s.messages.msgs_in) (record s { in_packet = p }))) in
    (
      p,
      handle_packet-publish env s' (ap (λ n. n / 16 % 16 * 16) command ∙ kind)
          ∙ kept
          ∙ ap built message,
    )

-- What `send__publish` puts on the wire for a message of QoS 2 without MQTT 5 is a packet that
-- `packet__read` of a receiver hands on once, however the stream is cut and paused on the way, and
-- that `handle__packet` there takes into the queue of messages: with the topic, the payload, the
-- identifier and the flags that were sent. The sender has a connection, memory and a server with
-- room for the packet, and the receiver has a connection, memory and no packet half received.
pub send_publish-handle_packet :
    {S : Type 0} (protocol : Protocol) (maximum_packet_size : ℕ) (a : Args) (l : Listed a) (now : ℕ)
    (rs : List Reply) (o : Outgoing) (handler : Incoming S → Incoming S × Rc) (clock : ℕ → ℕ)
    (w : ℕ) (s' : List Arrival) (c : Incoming S) (env : Env) (s : Session)
    → o.has_socket ≡ true
    → is_mqtt5 protocol ≡ false
    → IsPublish false a l
    → check_oversize maximum_packet_size (length (publish_wire false a l)) ≡ Rc.success
    → IsStream o
    → IsConnected c
    → IsClean c.in_packet
    → Delivers w (frame (publish_command a) (publish_wire false a l)) c.socket s'
    → IsTransfer env a s
    → Puts
        (send_publish protocol maximum_packet_size a true true now rs o)
        o
        (frame (publish_command a) (publish_wire false a l))
      × (q : Packet) × (t : ℕ) × (p : Packet) × (calls handler clock w c
          ≡ handled handler (clock 0) (record (at c q s') { last_msg_in = t }))
      × (handle_packet env (record s { in_packet = record q { pos = 0 } }) ≡ taken_in env a s p)
send_publish-handle_packet protocol maximum a l now rs o handler clock w s' c env s open_ old
      publish room stream connected clean delivers h =
    let puts =
      send_publish-frame protocol maximum a l now rs o open_
        (subst (λ b. IsPublish b a l) (sym old) publish)
        (ap (λ b. check_oversize maximum (length (publish_wire b a l))) old ∙ room) stream in
    let some_ : publish_command a ≢ 0 = λ e. absurd (omega arith) in
    let (q, t, holds, read) =
      packet_read-Delivers handler clock w (publish_command a) (publish_wire false a l) s' c
        connected some_ clean publish.fits delivers in
    let (p, kept) = handle_packet-taken_in env a l s q h publish holds in
    (
      subst
          (λ b.
            Puts (send_publish protocol maximum a true true now rs o) o
              (frame (publish_command a) (publish_wire b a l)))
          old puts,
      q,
      t,
      p,
      read,
      kept,
    )
