-- ===== src/Loop/Tests.antt =====
-- Delays of a client whose attempts to connect fail.
use artemisia.Base.{true, false, List, [], ◌∷◌, ◌≡◌, refl, Rc}
use artemisia.State.{ClientState}
use artemisia.Loop.{
  Reconnecting, Turn, looped, attempt, run_loop, loop_forever, next_delay, wanted_delay,
}
use artemisia.Loop.Backoff.{IsBelow, loop_forever-IsBelow}

-- The second example of the documentation of `mosquitto_reconnect_delay_set`.
abbrev backoff : Reconnecting
backoff = record {
  reconnects = 2;
  reconnect_delay = 3;
  reconnect_delay_max = 30;
  reconnect_exponential_backoff = true;
}

abbrev refused : Turn
refused = attempt ClientState.new Rc.success ClientState.new Rc.conn_refused

abbrev turns : List Turn
turns =
    looped Rc.success false true
    ∷ looped Rc.conn_lost false false
    ∷ refused
    ∷ refused
    ∷ refused
    ∷ refused
    ∷ refused
    ∷ []

-- The documentation says 3, 6, 12, 24, 30.
delays_test : (loop_forever turns backoff).delays ≡ 3 ∷ 12 ∷ 27 ∷ 30 ∷ 30 ∷ []
unfolding loop_forever run_loop next_delay wanted_delay
delays_test = refl

loop_forever-IsBelow_example : IsBelow 30 (loop_forever turns backoff)
loop_forever-IsBelow_example = loop_forever-IsBelow turns backoff
