-- ===== src/Will/Laws.antt =====
-- The ways `will__set` ends.
use artemisia.Base.{is_failure, is_failure-success}
use artemisia.Base.{
  ℤ, Option, take, take-nil, ◌≤◌, ◌≡◌, refl, sym, ap, ◌∙◌, arith, inl, inr, ◌⊎◌, Bool, true, false,
  not, ◌&&◌, ◌||◌, Bool-cases, Option-cases, none, some, List, [], ◌∷◌, ◌++◌, Bytes, Rc, length,
  All, is_positive,
}
use mathlib.Core.Path.{subst}
use artemisia.State.{Protocol, is_mqtt5}
use artemisia.Utf8.{Check, code, overrun, stuck, validate_utf8}
use artemisia.Topic.{pub_topic_check}
use artemisia.Topic.Levels.{is_plain}
use artemisia.Topic.CheckLaws.{verdict, pub_topic_check_lem}
use artemisia.Property.Defs.{Property}
use artemisia.Property.Command
use artemisia.Property.Check.{check_command}
use artemisia.Base.{if-true, if-false}
use artemisia.Will.{
  Client, Args, is_null, is_outside, is_refused, will_loop, check_properties, check_topic, Will,
  bytes_of, copied_payload, check_given, check_args, new_will, will_set,
}

-- The arguments are those of a will: a topic without wildcards that is valid UTF-8, a payload that
-- fits a packet, and properties of a will, with MQTT 5 only.
pub record IsWill (protocol : Protocol) (a : Args) : Type 0 where
  pub topic : Bytes
  pub given : a.topic ≡ some topic
  pub plain : is_plain topic ≡ true
  pub short : length topic ≤ 65535
  pub text : validate_utf8 (some (topic ++ (0 ∷ []))) (length topic) ≡ code Rc.success
  pub fits : is_outside a.payloadlen ≡ false
  pub backed : (is_positive a.payloadlen && is_null a.payload) ≡ false
  pub version : (a.properties ≡ []) ⊎ (is_mqtt5 protocol ≡ true)
  pub allowed :
      All (λ (p : Property). check_command Command.will p.identifier ≡ Rc.success) a.properties

failed : (rc : Rc) → is_failure rc ≡ true → rc ≡ Rc.success → ⊥
failed Rc.success h e = cc
failed _ h e = cc

is_refused-success : (c : Check) → is_refused c ≡ false → c ≡ code Rc.success
is_refused-success (code Rc.success) h = refl
is_refused-success (code _) h = cc
is_refused-success overrun h = cc
is_refused-success stuck h = cc

will_loop-All :
    (ps : List Property)
    → will_loop ps ≡ Rc.success
    → All (λ (p : Property). check_command Command.will p.identifier ≡ Rc.success) ps
unfolding will_loop
will_loop-All [] h = tt
will_loop-All (p ∷ ps) h =
    elim (Bool-cases (is_failure (check_command Command.will p.identifier))) [
      | inl bad ↦ absurd (failed _ bad (sym (if-true _ _ _ bad) ∙ h))
      | inr good ↦ (is_failure-success _ good, will_loop-All ps (sym (if-false _ _ _ good) ∙ h))
    ]

check_topic-plain :
    (topic : Bytes)
    → check_topic topic ≡ Rc.success
    → (is_plain topic ≡ true)
      × (length topic ≤ 65535)
      × (validate_utf8 (some (topic ++ (0 ∷ []))) (length topic) ≡ code Rc.success)
unfolding check_topic
check_topic-plain topic h = elim (Bool-cases (is_failure (pub_topic_check (some topic)))) [
  | inl bad ↦ absurd (failed Rc.inval refl (sym (if-true _ _ _ bad) ∙ h))
  | inr good ↦
      let v : verdict (is_plain topic) (length topic) ≡ Rc.success =
        sym (pub_topic_check_lem topic) ∙ is_failure-success _ good in
      elim (Bool-cases (is_refused (validate_utf8 (some (topic ++ (0 ∷ []))) (length topic)))) [
        | inl bad ↦ absurd (
            failed Rc.malformed_utf8 refl (sym (if-true _ _ _ bad) ∙ sym (if-false _ _ _ good) ∙ h))
        | inr fine ↦ (ground (arith, v), ground (arith, v), is_refused-success _ fine)
      ]
]

check_properties-All :
    (protocol : Protocol) (ps : List Property)
    → check_properties protocol ps ≡ Rc.success
    → ((ps ≡ []) ⊎ (is_mqtt5 protocol ≡ true))
      × All (λ (p : Property). check_command Command.will p.identifier ≡ Rc.success) ps
check_properties-All protocol [] h = (inl refl, tt)
check_properties-All protocol (p ∷ ps) h = elim (Bool-cases (is_mqtt5 protocol)) [
  | inl new ↦ (inr new, will_loop-All (p ∷ ps) (sym (if-false _ _ _ (ap not new)) ∙ h))
  | inr old ↦ absurd (failed Rc.not_supported refl (sym (if-true _ _ _ (ap not old)) ∙ h))
]

check_given-IsWill :
    (protocol : Protocol) (a : Args) (topic : Bytes)
    → a.topic ≡ some topic
    → check_given protocol a topic ≡ Rc.success
    → IsWill protocol a
unfolding check_given
check_given-IsWill protocol a topic given h = elim (Bool-cases (is_outside a.payloadlen)) [
  | inl bad ↦ absurd (failed Rc.payload_size refl (sym (if-true _ _ _ bad) ∙ h))
  | inr fits ↦
      let h1 = sym (if-false _ _ _ fits) ∙ h in
      elim (Bool-cases (is_positive a.payloadlen && is_null a.payload)) [
        | inl bad ↦ absurd (failed Rc.inval refl (sym (if-true _ _ _ bad) ∙ h1))
        | inr backed ↦
            let h2 = sym (if-false _ _ _ backed) ∙ h1 in
            elim (Bool-cases (is_failure (check_topic topic))) [
              | inl bad ↦ absurd (failed _ bad (sym (if-true _ _ _ bad) ∙ h2))
              | inr good ↦
                  let (plain, short, text) = check_topic-plain topic (is_failure-success _ good) in
                  let (version, allowed) =
                    check_properties-All protocol a.properties (sym (if-false _ _ _ good) ∙ h2) in
                  record {
                    topic = topic;
                    given = given;
                    plain = plain;
                    short = short;
                    text = text;
                    fits = fits;
                    backed = backed;
                    version = version;
                    allowed = allowed;
                  }
            ]
      ]
]

check_args-IsWill :
    (protocol : Protocol) (a : Args) → check_args protocol a ≡ Rc.success → IsWill protocol a
unfolding check_args
check_args-IsWill protocol a h = elim (Option-cases a.topic) [
  | inl null ↦ absurd (failed Rc.inval refl (sym (rw null) ∙ h))
  | inr (topic, given) ↦ check_given-IsWill protocol a topic given (sym (rw given) ∙ h)
]

will_loop-success :
    (ps : List Property)
    → All (λ (p : Property). check_command Command.will p.identifier ≡ Rc.success) ps
    → will_loop ps ≡ Rc.success
unfolding will_loop
will_loop-success [] h = refl
will_loop-success (p ∷ ps) (e, h) = rw e (will_loop-success ps h)

check_properties-success :
    (protocol : Protocol) (ps : List Property)
    → (ps ≡ []) ⊎ (is_mqtt5 protocol ≡ true)
    → All (λ (p : Property). check_command Command.will p.identifier ≡ Rc.success) ps
    → check_properties protocol ps ≡ Rc.success
check_properties-success protocol [] v h = refl
check_properties-success protocol (p ∷ ps) (inl none_) h = cc
check_properties-success protocol (p ∷ ps) (inr new) h =
    if-false _ _ _ (ap not new) ∙ will_loop-success (p ∷ ps) h

check_topic-success :
    (topic : Bytes)
    → is_plain topic ≡ true
    → length topic ≤ 65535
    → validate_utf8 (some (topic ++ (0 ∷ []))) (length topic) ≡ code Rc.success
    → check_topic topic ≡ Rc.success
unfolding check_topic
check_topic-success topic plain short text =
    let v : verdict (is_plain topic) (length topic) ≡ Rc.success = ground (arith, plain) in
    rw (pub_topic_check_lem topic ∙ v, text)

IsWill-check_args :
    (protocol : Protocol) (a : Args) → IsWill protocol a → check_args protocol a ≡ Rc.success
unfolding check_args check_given
IsWill-check_args protocol a w =
    rw (w.given, w.fits, w.backed, check_topic-success w.topic w.plain w.short w.text)
      (check_properties-success protocol a.properties w.version w.allowed)

-- `n` bytes from the pointer to a payload.
abbrev pub first_bytes : ℤ → Option Bytes → Bytes
first_bytes (ℤ.pos n) (some payload) = take n payload
first_bytes n payload = []

first_bytes-copied_payload :
    (n : ℤ) (payload : Option Bytes) → copied_payload n payload ≡ first_bytes n payload
first_bytes-copied_payload (ℤ.pos n) none = take-nil n
first_bytes-copied_payload (ℤ.pos n) (some payload) = refl
first_bytes-copied_payload (ℤ.negsuc n) none = refl
first_bytes-copied_payload (ℤ.negsuc n) (some payload) = refl

-- The will that the arguments describe.
abbrev pub described : Bytes → Args → Will
described topic a = record {
  topic = topic;
  payload = first_bytes a.payloadlen a.payload;
  qos = a.qos;
  retain = a.retain;
  properties = a.properties;
}

new_will-described :
    (topic : Bytes) (a : Args) → a.topic ≡ some topic → new_will a ≡ described topic a
new_will-described topic a e =
    ap (λ t. record (new_will a) { topic = bytes_of t }) e
    ∙ ap (λ p. record (described topic a) { payload = p })
        (first_bytes-copied_payload a.payloadlen a.payload)

-- There is memory for the will, its topic and its payload.
abbrev pub has_room : Bool → Bool → Bool → Args → Bool
has_room mem1 mem2 mem3 a = mem1 && mem2 && (not (is_positive a.payloadlen) || mem3)

-- The ways `will__set` ends, by the memory there is, the client it leaves and its return code.
pub data Setting (a : Args) (c : Client) : Bool → Client × Rc → Type 0 where
  kept :
      {room : Bool} (rc : Rc)
      → is_failure rc ≡ true
      → (IsWill c.protocol a → ⊥)
      → Setting a c room (c, rc)
  set :
      (w : IsWill c.protocol a)
      → Setting a c true (record c { will = some (described w.topic a) }, Rc.success)
  dropped : IsWill c.protocol a → Setting a c false (record c { will = none }, Rc.nomem)

-- `will__set` has three ways to end. If the arguments are not those of a will, it fails and the client
-- keeps the will it had. If they are and there is memory, the will is set, with their topic, payload,
-- QoS, flag and properties. If they are but memory is short, the client has no will any more.
pub will_set-Setting :
    (mem1 mem2 mem3 : Bool) (a : Args) (c : Client)
    → Setting a c (has_room mem1 mem2 mem3 a) (will_set mem1 mem2 mem3 a c)
unfolding will_set
will_set-Setting mem1 mem2 mem3 a c = elim (Bool-cases (is_failure (check_args c.protocol a))) [
  | inl bad ↦
      subst (Setting a c (has_room mem1 mem2 mem3 a)) (sym (if-true _ _ _ bad))
        (kept _ bad (λ w. failed _ bad (IsWill-check_args c.protocol a w)))
  | inr good ↦
      let will = check_args-IsWill c.protocol a (is_failure-success _ good) in
      elim (Bool-cases (has_room mem1 mem2 mem3 a)) [
        | inl room ↦ rw room (
            subst (Setting a c true)
              (sym (
                if-false _ _ _ good
                ∙ ap (λ w. (record c { will = some w }, Rc.success))
                    (new_will-described will.topic a will.given)))
              (set will))
        | inr short ↦
            rw short (subst (Setting a c false) (sym (if-false _ _ _ good)) (dropped will))
      ]
]
