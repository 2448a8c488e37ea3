-- ===== src/Handlers/Publish/Release.antt =====
-- The steps of handle__pubrel.
use artemisia.Base.{ℕ, ◌-◌, ◌%◌, ◌≡◌, ◌≢◌, refl, arith, Bool, true, false, ◌||◌}
use artemisia.Base.{List, [], ◌∷◌, ◌++◌, Rc, ◌==◌, All}
use artemisia.State.{is_active, is_mqtt5, is_mqtt31}
use artemisia.Packet.Defs.{Packet, IsReadable}
use artemisia.Packet.Encode.{uint16_bytes}
use artemisia.Packet.Unread.{unread}
use artemisia.Property.Command
use artemisia.Messages.Defs.{Message}
use artemisia.Messages.{increment_quota, message_remove, remove_loop, absent, found}
use artemisia.Handlers.Defs.{Event, Session, Env, next, ◌>>=◌, ◌>>◌, demand, demand_active}
use artemisia.Handlers.{read_mid, read_reason, send_pubcomp}
use artemisia.Handlers.Publish.{handle_pubrel, release_message, after_remove}
use artemisia.Handlers.Publish.Steps.{log_more, set_in}

-- A PUBREL with this identifier and nothing else.
pub record IsPubrel (mid : ℕ) (p : Packet) : Type 0 where
  pub readable : IsReadable p
  pub rest : unread p ≡ uint16_bytes mid
  pub flags : (p.command % 16 == 2) ≡ true

abbrev pub with_packet : Packet → Session → Session
with_packet p s = record s { in_packet = p }

∨-true : (b : Bool) → (b || true) ≡ true
∨-true true = refl
∨-true false = refl

-- `handle__pubrel` up to the answer of `send__pubcomp`.
pub handle_pubrel_step :
    (env : Env) (mid : ℕ) (s : Session) (p1 : Packet)
    → (s.in_packet.command % 16 == 2) ≡ true
    → is_active s.state ≡ true
    → is_mqtt5 s.protocol ≡ false
    → env.answer Command.pubcomp mid ≡ Rc.success
    → read_mid s ≡ next mid (with_packet p1 s)
    → handle_pubrel env s
      ≡ release_message mid Rc.success (
          log_more
            (Event.sent Command.pubcomp mid 0 ∷ [])
            (set_in (increment_quota s.messages.msgs_in) (with_packet p1 s)))
unfolding handle_pubrel read_reason send_pubcomp
handle_pubrel_step env mid s p1 flags active version answer id = rw (
  demand_active,
  ◌>>=◌,
  ◌>>◌,
  demand,
  active,
  flags,
  ∨-true (is_mqtt31 s.protocol),
  id,
  version,
  answer,
)

pub release_message-found :
    (mid : ℕ) (m : Message) (ms : List Message) (s : Session)
    → remove_loop mid 2 s.messages.msgs_in.inflight ≡ found m ms
    → release_message mid Rc.success s
      ≡ next Rc.success (
          log_more (Event.on_message m m.properties ∷ []) (
            set_in
              (record (s.messages.msgs_in) {
                inflight = ms;
                queue_len = s.messages.msgs_in.queue_len - 1;
              })
              s))
unfolding release_message after_remove message_remove
release_message-found mid m ms s e = rw e

pub release_message-absent :
    (mid : ℕ) (s : Session)
    → remove_loop mid 2 s.messages.msgs_in.inflight ≡ absent
    → release_message mid Rc.success s ≡ next Rc.success s
unfolding release_message after_remove message_remove
release_message-absent mid s e = rw e

pub remove_loop-absent :
    (mid : ℕ) (ms : List Message)
    → All (λ (m : Message). m.mid ≢ mid) ms
    → remove_loop mid 2 ms ≡ absent
unfolding remove_loop
remove_loop-absent mid [] h = refl
remove_loop-absent mid (m ∷ ms) (ne, h) =
    let other : (m.mid == mid) ≡ false = ground arith in rw (other, remove_loop-absent mid ms h)

pub remove_loop-behind :
    (mid : ℕ) (m : Message) (ms back : List Message)
    → All (λ (m : Message). m.mid ≢ mid) ms
    → m.mid ≡ mid
    → m.qos ≡ 2
    → remove_loop mid 2 (ms ++ (m ∷ back)) ≡ found m (ms ++ back)
unfolding remove_loop
remove_loop-behind mid m [] back h same qos =
    let same' : (m.mid == mid) ≡ true = ground arith in
    let qos' : (m.qos == 2) ≡ true = ground arith in rw (same', qos')
remove_loop-behind mid m (x ∷ ms) back (ne, h) same qos =
    let other : (x.mid == mid) ≡ false = ground arith in
    rw (other, remove_loop-behind mid m ms back h same qos)
