-- ===== src/Messages/Tests.antt =====
-- Runs of messages_mosq.c, and its theorems at concrete inputs.
use artemisia.Base.{ℕ, ◌-◌, ◌≡◌, ◌≢◌, refl, arith, inl, inr, false, List, [], ◌∷◌, Rc}
use artemisia.Messages.Defs.{Message, MsgData, Client, MsgState, md_out, IsCounted, IsBalanced}
use artemisia.Messages.{
  message_queue, release_loop, release_to_inflight, message_delete, message_remove, remove_loop,
  increment_quota, reconnect_reset, retry_check, after_send, decrement_quota,
}
use artemisia.Messages.Queue.{
  IsQueue, Queued, mids, message_queue_lem, message_delete-IsQueue, Removal, remove_loop-Removal,
}
use artemisia.Messages.Reset.{reconnect_reset_lem}
use artemisia.Messages.Mid.{generate_many, generate_many-ne}
use artemisia.Messages.Retry.Resumed.{Resumes, retry_check-reconnect_reset}

abbrev message : ℕ → ℕ → MsgState → Message
message mid qos state = record {
  mid = mid;
  topic = b'a' ∷ [];
  payload = [];
  qos = qos;
  retain = false;
  properties = [];
  timestamp = 5;
  state = state;
  dup = false;
  expiry_interval = 0;
}

abbrev sent_one : Message
sent_one = message 1 1 MsgState.wait_for_puback

abbrev fresh : Message
fresh = message 2 2 MsgState.invalid

abbrev data_of : List Message → ℕ → ℕ → ℕ → MsgData
data_of ms len quota max = record {
  inflight = ms;
  queue_len = len;
  inflight_quota = quota;
  inflight_maximum = max;
}

abbrev client : MsgData → Client
client d = record { msgs_in = data_of [] 0 20 20; msgs_out = d; last_mid = 2 }

abbrev one_sent : Client
one_sent = client (data_of (sent_one ∷ []) 1 1 2)

one_sent-IsQueue : IsQueue one_sent.msgs_out
one_sent-IsQueue = record { counted = refl; balanced = refl; qos = (inl refl, tt) }

-- `send__publish` succeeds.
abbrev sends : Message → Rc
sends m = Rc.success

released : (message_queue sends fresh md_out one_sent).0.msgs_out.inflight_quota ≡ 0
unfolding message_queue release_to_inflight release_loop after_send decrement_quota
released = refl

message_queue_lem_example :
    Queued fresh one_sent.msgs_out
      (message_queue sends fresh md_out one_sent).0.msgs_out
      (message_queue sends fresh md_out one_sent).1
message_queue_lem_example = message_queue_lem sends fresh one_sent (inr refl) refl one_sent-IsQueue

remove_loop-Removal_example :
    Removal 1 1 (fresh ∷ sent_one ∷ []) (remove_loop 1 1 (fresh ∷ sent_one ∷ []))
remove_loop-Removal_example = remove_loop-Removal 1 1 (fresh ∷ sent_one ∷ [])

deleted : (message_delete 1 md_out 1 one_sent).1 ≡ Rc.success
unfolding message_delete message_remove remove_loop
deleted = refl

message_delete-IsQueue_example :
    IsQueue (increment_quota (message_delete 1 md_out 1 one_sent).0.msgs_out)
message_delete-IsQueue_example =
    message_delete-IsQueue 1 1 one_sent one_sent-IsQueue ((λ e. refl), tt) deleted

reconnect_reset_lem_example :
    IsBalanced (reconnect_reset one_sent).msgs_out
    × IsCounted (reconnect_reset one_sent).msgs_out
    × (mids (reconnect_reset one_sent).msgs_out ≡ mids one_sent.msgs_out)
    × ((reconnect_reset one_sent).msgs_in.inflight_quota ≡ 20 - 0)
    × IsCounted (reconnect_reset one_sent).msgs_in
    × (mids (reconnect_reset one_sent).msgs_in ≡ mids one_sent.msgs_in)
reconnect_reset_lem_example = reconnect_reset_lem one_sent (inl refl, tt) tt

abbrev waiting : Client
waiting = client (data_of (fresh ∷ []) 1 0 2)

generate_many-ne_example : generate_many 3 one_sent ≢ generate_many 65000 one_sent
generate_many-ne_example =
    generate_many-ne 3 65000 one_sent (omega arith) (omega arith) (omega arith) (omega arith)

-- A message of QoS 1, and one of QoS 2 whose PUBREC has come.
abbrev received_two : Message
received_two = message 2 2 MsgState.wait_for_pubcomp

abbrev two_sent : Client
two_sent = client (data_of (sent_one ∷ received_two ∷ []) 2 0 2)

retry_check-reconnect_reset_example :
    Resumes 9 2 (sent_one ∷ received_two ∷ []) (retry_check 9 (reconnect_reset two_sent)).1
retry_check-reconnect_reset_example =
    retry_check-reconnect_reset 9 two_sent (inl refl, (inr (refl, inr (inr (inr (inl refl)))), tt))
