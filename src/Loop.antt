-- ===== src/Loop.antt =====
-- `mosquitto_loop_forever` of loop.c: the client reconnects, after delays that grow.
pub mod Backoff
mod Tests
use artemisia.Base.{
  ℕ, suc, ◌+◌, ◌*◌, ◌%◌, ◌^◌, Bool, true, false, ◌||◌, Option, none, some, List, [], ◌∷◌, Rc, ltb,
  if◌then◌else◌, is_failure,
}
use artemisia.State.{ClientState}

-- The part of `struct mosquitto` that the delays depend on.
pub record Reconnecting : Type 0 where
  pub reconnects : ℕ
  pub reconnect_delay : ℕ
  pub reconnect_delay_max : ℕ
  pub reconnect_exponential_backoff : Bool

pub reconnect_delay_set : ℕ → ℕ → Bool → Reconnecting → Reconnecting × Rc
reconnect_delay_set reconnect_delay reconnect_delay_max exponential r = (
  record r {
    reconnect_delay = if ltb 0 reconnect_delay then reconnect_delay else 1;
    reconnect_delay_max = reconnect_delay_max;
    reconnect_exponential_backoff = exponential;
  },
  Rc.success,
)

-- The product of unsigned ints, of 32 bits.
unfoldable pub wanted_delay : Reconnecting → ℕ
wanted_delay r =
    let linear = r.reconnect_delay * (r.reconnects + 1) % 2 ^ 32 in
    if ltb r.reconnect_delay r.reconnect_delay_max
    then (if r.reconnect_exponential_backoff then linear * (r.reconnects + 1) % 2 ^ 32 else linear)
    else r.reconnect_delay

-- The delay of an attempt, and the client behind it.
unfoldable pub next_delay : Reconnecting → ℕ × Reconnecting
next_delay r =
    if ltb r.reconnect_delay_max (wanted_delay r)
    then (r.reconnect_delay_max, r)
    else (wanted_delay r, record r { reconnects = (r.reconnects + 1) % 2 ^ 32 })

-- What the loop asks for, in order: the code of `mosquitto_loop`, with whether `errno` is EPROTO and
-- whether a CONNACK has set `reconnects` to 0; and for an attempt to connect the state, the code of
-- the sleep, the state again, and the code of `mosquitto_reconnect`.
pub data Turn : Type 0 where
  looped : Rc → Bool → Bool → Turn
  attempt : ClientState → Rc → ClientState → Rc → Turn

pub data Phase : Type 0 where
  looping reconnecting : Phase

-- The delays that were slept, the client, and the return code; without one, the loop goes on.
pub record Run : Type 0 where
  pub delays : List ℕ
  pub client : Reconnecting
  pub code : Option Rc

abbrev pub delayed : ℕ → Run → Run
delayed d run = record run { delays = d ∷ run.delays }

abbrev pub is_fatal : Rc → Bool
is_fatal Rc.nomem = true
is_fatal Rc.protocol = true
is_fatal Rc.inval = true
is_fatal Rc.not_found = true
is_fatal Rc.tls = true
is_fatal Rc.payload_size = true
is_fatal Rc.not_supported = true
is_fatal Rc.auth = true
is_fatal Rc.acl_denied = true
is_fatal Rc.unknown = true
is_fatal Rc.eai = true
is_fatal Rc.proxy = true
is_fatal rc = false

abbrev pub is_ending : ClientState → Bool
is_ending ClientState.disconnecting = true
is_ending ClientState.disconnected = true
is_ending state = false

abbrev pub confirmed : Bool → Reconnecting → Reconnecting
confirmed connack r = if connack then record r { reconnects = 0 } else r

abbrev pub phase_after : Rc → Phase
phase_after Rc.success = Phase.looping
phase_after rc = Phase.reconnecting

abbrev pub ended_with : Rc → Reconnecting → Run
ended_with rc r = record { delays = []; client = r; code = some rc }

abbrev pub going : Reconnecting → Run
going r = record { delays = []; client = r; code = none }

-- The two loops, over the answers. An answer that the loop does not ask for ends the run.
unfoldable pub run_loop : Phase → List Turn → Reconnecting → Run
run_loop phase [] r = going r
run_loop Phase.looping (looped rc eproto connack ∷ answers) r =
    let r' = confirmed connack r in
    let again_ = run_loop Phase.looping answers r' in
    let on = run_loop Phase.reconnecting answers r' in
    if is_failure rc then (if is_fatal rc || eproto then ended_with rc r' else on) else again_
run_loop Phase.reconnecting (attempt before slept after_ rc ∷ answers) r =
    let (d, r') = next_delay r in
    let on = run_loop (phase_after rc) answers r' in
    if is_ending before
    then ended_with Rc.success r
    else delayed d (
        if is_failure slept
        then ended_with slept r'
        else if is_ending after_
        then ended_with Rc.success r'
        else on)
run_loop Phase.looping (attempt before slept after_ rc ∷ answers) r = going r
run_loop Phase.reconnecting (looped rc eproto connack ∷ answers) r = going r

unfoldable pub loop_forever : List Turn → Reconnecting → Run
loop_forever answers r = run_loop Phase.looping answers (record r { reconnects = 0 })
