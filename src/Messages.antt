-- ===== src/Messages.antt =====
-- messages_mosq.c, and the quotas and message identifiers of util_mosq.c. Each function is run
-- with its mutex held, so it is one step. `send` is what `send__publish` returns for a message.
pub mod Defs
pub mod Release
pub mod Starts
pub mod Queue
pub mod Reset
pub mod Mid
pub mod Retry
mod Tests
use artemisia.Base.{ℕ, zero, suc, ◌+◌, ◌-◌, ◌%◌, ◌^◌, ◌<◌, Bool, true, false, not, ◌&&◌, ◌||◌}
use artemisia.Base.{List, [], ◌∷◌, ◌++◌, Rc, ltb, ◌==◌, if◌then◌else◌}
use artemisia.Messages.Defs.{
  MsgState, Direction, md_in, md_out, Message, MsgData, Client, is_invalid,
}

-- util__increment_send_quota and util__increment_receive_quota, each on its own side.
unfoldable pub increment_quota : MsgData → MsgData
increment_quota d =
    if ltb d.inflight_quota d.inflight_maximum
    then record d { inflight_quota = d.inflight_quota + 1 }
    else d

unfoldable pub decrement_quota : ℕ → ℕ
decrement_quota quota = if ltb 0 quota then quota - 1 else quota

-- The last_mid after one call, a uint16_t.
unfoldable pub mid_generate : Client → ℕ × Client
mid_generate c =
    let next = (c.last_mid + 1) % 2 ^ 16 in
    let mid = if next == 0 then next + 1 else next in (mid, record c { last_mid = mid })

-- What a walk over the outgoing messages leaves: the list, the quota, the return code, and the
-- messages that were handed to `send__publish`, in order.
pub record Walk : Type 0 where
  pub kept : List Message
  pub quota : ℕ
  pub code : Rc
  pub sent : List Message

abbrev pub keep : Message → Walk → Walk
keep m w = record w { kept = m ∷ w.kept }

abbrev pub started : Message → Message
started m =
    if m.qos == 1
    then record m { state = MsgState.wait_for_puback }
    else if m.qos == 2
    then record m { state = MsgState.wait_for_pubrec }
    else m

abbrev pub stopped : List Message → ℕ → Rc → List Message → Walk
stopped ms quota rc sent = record { kept = ms; quota = quota; code = rc; sent = sent }

-- `if(rc) return rc;` behind `send__publish`, else the rest of the walk.
pub after_send : Rc → Message → List Message → ℕ → Walk → Walk
after_send Rc.success m rest quota w = record w { kept = m ∷ w.kept; sent = m ∷ w.sent }
after_send rc m rest quota w = stopped (m ∷ rest) quota rc (m ∷ [])

-- The loop of `message__release_to_inflight` over the outgoing messages.
pub release_loop : (Message → Rc) → List Message → ℕ → Walk
release_loop send [] quota = stopped [] quota Rc.success []
release_loop send (cur ∷ rest) quota =
    let on = release_loop send rest in
    let next = on quota in
    let spent = on (decrement_quota quota) in
    if ltb 0 quota
    then (if ltb 0 cur.qos && is_invalid cur.state
        then after_send (send (started cur)) (started cur) rest quota spent
        else keep cur next)
    else stopped (cur ∷ rest) quota Rc.success []

unfoldable pub release_to_inflight :
    (Message → Rc) → Direction → Client → Client × Rc × List Message
release_to_inflight send md_in c = (c, Rc.success, [])
release_to_inflight send md_out c =
    let w = release_loop send c.msgs_out.inflight c.msgs_out.inflight_quota in
    (
      record c { msgs_out = record (c.msgs_out) { inflight = w.kept; inflight_quota = w.quota } },
      w.code,
      w.sent,
    )

-- The assertion that the QoS is not 0 is left to the callers.
abbrev pub append_to : Message → MsgData → MsgData
append_to m d = record d { inflight = d.inflight ++ (m ∷ []); queue_len = d.queue_len + 1 }

unfoldable pub message_queue :
    (Message → Rc) → Message → Direction → Client → Client × Rc × List Message
message_queue send m md_out c =
    release_to_inflight send md_out (record c { msgs_out = append_to m c.msgs_out })
message_queue send m md_in c =
    release_to_inflight send md_in (record c { msgs_in = append_to m c.msgs_in })

-- The search of `message__remove`.
pub data Search : Type 0 where
  absent : Search
  wrong_qos : Search
  found : Message → List Message → Search

abbrev pub found_behind : Message → Search → Search
found_behind cur absent = absent
found_behind cur wrong_qos = wrong_qos
found_behind cur (found m rest) = found m (cur ∷ rest)

unfoldable pub remove_loop : ℕ → ℕ → List Message → Search
remove_loop mid qos [] = absent
remove_loop mid qos (cur ∷ rest) =
    let further = found_behind cur (remove_loop mid qos rest) in
    if cur.mid == mid then (if cur.qos == qos then found cur rest else wrong_qos) else further

-- `queue_len` stops at 0 here, where the int of the code would go below.
abbrev pub removed : Search → MsgData → MsgData × Rc × List Message
removed absent d = (d, Rc.not_found, [])
removed wrong_qos d = (d, Rc.protocol, [])
removed (found m rest) d =
    (record d { inflight = rest; queue_len = d.queue_len - 1 }, Rc.success, m ∷ [])

-- The message that was taken out stands in the list of the result.
unfoldable pub message_remove : ℕ → Direction → ℕ → Client → Client × Rc × List Message
message_remove mid md_out qos c =
    let (d, rc, m) = removed (remove_loop mid qos c.msgs_out.inflight) c.msgs_out in
    (record c { msgs_out = d }, rc, m)
message_remove mid md_in qos c =
    let (d, rc, m) = removed (remove_loop mid qos c.msgs_in.inflight) c.msgs_in in
    (record c { msgs_in = d }, rc, m)

-- `message__cleanup` frees the message.
unfoldable pub message_delete : ℕ → Direction → ℕ → Client → Client × Rc
message_delete mid dir qos c = let (c', rc, m) = message_remove mid dir qos c in (c', rc)

-- The loop of `message__out_update`, with the time that `mosquitto_time` gives.
pub update_loop : ℕ → MsgState → ℕ → ℕ → List Message → List Message × Rc
update_loop mid state qos now [] = ([], Rc.not_found)
update_loop mid state qos now (cur ∷ rest) =
    let (rest', rc) = update_loop mid state qos now rest in
    if cur.mid == mid
    then (if cur.qos == qos
        then (record cur { state = state; timestamp = now } ∷ rest, Rc.success)
        else (cur ∷ rest, Rc.protocol))
    else (cur ∷ rest', rc)

pub out_update : ℕ → MsgState → ℕ → ℕ → Client → Client × Rc
out_update mid state qos now c =
    let (ms, rc) = update_loop mid state qos now c.msgs_out.inflight in
    (record c { msgs_out = record (c.msgs_out) { inflight = ms } }, rc)

-- The two loops of `message__reconnect_reset`: the list, the quota and `queue_len` go on.
pub reset_in_loop : List Message → ℕ → ℕ → List Message × ℕ × ℕ
reset_in_loop [] quota len = ([], quota, len)
reset_in_loop (m ∷ ms) quota len =
    let (kept, quota', len') =
      reset_in_loop ms (if m.qos == 2 then decrement_quota quota else quota) (len + 1) in
    if m.qos == 2 then (record m { timestamp = 0 } ∷ kept, quota', len') else (kept, quota', len')

abbrev pub reset_state : Message → MsgState
reset_state m =
    if m.qos == 1
    then MsgState.publish_qos1
    else if m.qos == 2
    then elim (m.state) [
      | MsgState.wait_for_pubrec ↦ MsgState.publish_qos2
      | MsgState.wait_for_pubcomp ↦ MsgState.resend_pubrel
      | other ↦ other
    ]
    else m.state

pub reset_out_loop : List Message → ℕ → ℕ → List Message × ℕ × ℕ
reset_out_loop [] quota len = ([], quota, len)
reset_out_loop (m ∷ ms) quota len =
    let (kept, quota', len') =
      reset_out_loop ms (if quota == 0 then quota else decrement_quota quota) (len + 1) in
    (
      record m { timestamp = 0; state = if quota == 0 then MsgState.invalid else reset_state m }
          ∷ kept,
      quota',
      len',
    )

pub reconnect_reset : Client → Client
reconnect_reset c =
    let i = c.msgs_in in
    let o = c.msgs_out in
    let (kept, quota, len) = reset_in_loop i.inflight i.inflight_maximum 0 in
    let (kept', quota', len') = reset_out_loop o.inflight o.inflight_maximum 0 in
    record c {
      msgs_in = record i { inflight = kept; inflight_quota = quota; queue_len = len };
      msgs_out = record o { inflight = kept'; inflight_quota = quota'; queue_len = len' };
    }

-- What `message__retry_check` sends for a message.
pub data Resend : Type 0 where
  publish : Message → Resend
  pubrec : ℕ → Resend
  pubrel : ℕ → Resend

abbrev pub again : ℕ → Message → Message
again now m = record m { timestamp = now; dup = true }

pub retry_one : ℕ → MsgState → Message → Message × List Resend
retry_one now MsgState.publish_qos1 m = (again now m, publish (again now m) ∷ [])
retry_one now MsgState.publish_qos2 m = (again now m, publish (again now m) ∷ [])
retry_one now MsgState.wait_for_pubrel m = (again now m, pubrec m.mid ∷ [])
retry_one now MsgState.resend_pubrel m = (again now m, pubrel m.mid ∷ [])
retry_one now MsgState.wait_for_pubcomp m = (again now m, pubrel m.mid ∷ [])
retry_one now s m = (m, [])

pub retry_loop : ℕ → List Message → List Message × List Resend
retry_loop now [] = ([], [])
retry_loop now (m ∷ ms) =
    let (m', first) = retry_one now m.state m in
    let (ms', rest) = retry_loop now ms in (m' ∷ ms', first ++ rest)

unfoldable pub retry_check : ℕ → Client → Client × List Resend
retry_check now c =
    let (ms, sent) = retry_loop now c.msgs_out.inflight in
    (record c { msgs_out = record (c.msgs_out) { inflight = ms } }, sent)

-- Both lists are emptied; the counters stay as they are.
pub cleanup_all : Client → Client
cleanup_all c = record c {
  msgs_in = record (c.msgs_in) { inflight = [] };
  msgs_out = record (c.msgs_out) { inflight = [] };
}
