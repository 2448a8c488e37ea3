-- ===== src/Actions.antt =====
-- What the functions of actions.c share: the part of `struct mosquitto` they use, what the
-- surroundings answer, and the checks of arguments.
pub mod Publish
pub mod Subscribe
mod Tests
use artemisia.Base.{
  ℕ, zero, suc, ◌-◌, ◌%◌, ◌^◌, ◌≡◌, refl, ap, ◌∙◌, sym, inl, inr, Bool, true, false, not, ◌&&◌,
  Bool-cases, if-true, if-false, Option, none, some, List, [], ◌∷◌, Bytes, Rc, ℤ, pos, negsuc, ltb,
  ◌==◌, if◌then◌else◌, is_failure, is_failure-success, All,
}
use artemisia.State.{Protocol}
use artemisia.Utf8.{code, validate_utf8}
use artemisia.Property.Ident
use artemisia.Property.Defs.{Property}
use artemisia.Messages.Defs.{Message, Client}
use artemisia.Outgoing.Defs.{Outgoing, Reply}
use artemisia.Outgoing.{check_oversize}

pub record Actor : Type 0 where
  pub protocol : Protocol
  pub maximum_qos : ℕ
  pub maximum_packet_size : ℕ
  pub out : Outgoing
  pub messages : Client

-- The answers of the allocations in their order, those of the copy of properties, what
-- `send__publish` returns for a message of the queue, the time, and the socket's answers.
pub record World : Type 0 where
  pub mem : ℕ → Bool
  pub property_mem : ℕ → Bool
  pub send : Message → Rc
  pub now : ℕ
  pub replies : List Reply

-- `if(b) return rc;`
abbrev pub refuse : Bool → Rc → Rc
refuse b rc = if b then rc else Rc.success

-- A row of tests, the first of which that fails is the answer.
abbrev pub first_failure : List Rc → Rc
first_failure [] = Rc.success
first_failure (rc ∷ rcs) = if is_failure rc then rc else first_failure rcs

-- Of a list that the client did not make, only the first property goes on, as if it had.
abbrev pub outgoing_properties : List Property → List Property
outgoing_properties [] = []
outgoing_properties (p ∷ properties) =
    if p.client_generated then p ∷ properties else record p { client_generated = true } ∷ []

abbrev pub has_topic_alias : List Property → Bool
has_topic_alias [] = false
has_topic_alias (p ∷ properties) =
    if p.identifier == Ident.topic_alias then true else has_topic_alias properties

abbrev pub is_oversize : ℕ → ℕ → Bool
is_oversize maximum_packet_size remaining_length =
    ltb 0 maximum_packet_size && is_failure (check_oversize maximum_packet_size remaining_length)

-- A qos from 0 to 2.
abbrev pub valid_qos : ℤ → Option ℕ
valid_qos (pos qos) = if ltb 2 qos then none else some qos
valid_qos (negsuc n) = none

-- An int as a uint32_t.
abbrev pub to_uint32 : ℤ → ℕ
to_uint32 (pos n) = n % 2 ^ 32
to_uint32 (negsuc n) = (2 ^ 32 - 1 - n) % 2 ^ 32

abbrev pub set_out : Outgoing → Actor → Actor
set_out o a = record a { out = o }

abbrev pub set_messages : Client → Actor → Actor
set_messages c a = record a { messages = c }

abbrev pub ended : Actor → Option (Outgoing × Rc) → Option (Actor × Rc)
ended a none = none
ended a (some (o, rc)) = some (set_out o a, rc)

-- A test that has passed was not the case.
pub refuse-false :
    (b : Bool) (rc : Rc) → is_failure rc ≡ true → refuse b rc ≡ Rc.success → b ≡ false
refuse-false true rc h e = absurd (differ (sym h ∙ ap is_failure e))
  where
    differ : true ≡ false → ⊥
    differ e = cc
refuse-false false rc h e = refl

pub first_failure-All :
    (rcs : List Rc) → first_failure rcs ≡ Rc.success → All (λ (rc : Rc). rc ≡ Rc.success) rcs
first_failure-All [] h = tt
first_failure-All (rc ∷ rcs) h = elim (Bool-cases (is_failure rc)) [
  | inl bad ↦
      let same : rc ≡ Rc.success = sym (if-true (is_failure rc) rc (first_failure rcs) bad) ∙ h in
      (same, absurd (differ (sym bad ∙ ap is_failure same)))
  | inr good ↦ (
    is_failure-success rc good,
    first_failure-All rcs (sym (if-false (is_failure rc) rc (first_failure rcs) good) ∙ h),
  )
]
  where
    differ : true ≡ false → ⊥
    differ e = cc
