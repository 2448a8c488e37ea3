-- ===== src/Will/Tests.antt =====
-- A will that is set.
use artemisia.Base.{true, none, some, [], ◌∷◌, ℤ}
use artemisia.State.{Protocol}
use artemisia.Will.{Client, Args, will_set}
use artemisia.Will.Laws.{Setting, will_set-Setting}

abbrev args : Args
args = record {
  topic = some (97 ∷ []);
  payloadlen = ℤ.pos 2;
  payload = some (98 ∷ 121 ∷ []);
  qos = 1;
  retain = true;
  properties = [];
}

abbrev client : Client
client = record { protocol = Protocol.mqtt311; will = none; will_delay_interval = 0 }

will_set-Setting_example : Setting args client true (will_set true true true args client)
will_set-Setting_example = will_set-Setting true true true args client
