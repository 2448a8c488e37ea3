-- ===== src/Senders/Connect/Prepared.antt =====
-- What `send__connect` makes of the properties: the receive maximum.
use artemisia.Base.{
  ℕ, ◌≡◌, refl, sym, ap, ◌∙◌, true, false, none, some, List, [], ◌∷◌, ◌++◌, Rc, if◌then◌else◌,
}
use mathlib.Core.Path.{subst}
use artemisia.State.{Protocol}
use artemisia.Property.Defs.{Property, i16, null_str, is_int16}
use artemisia.Property.Store.{get_property, read_int16_property, add_int16, property_add, of_type}
use artemisia.Property.Store.Laws.{Lacks, get_property_lem, get_property-Lacks}
use artemisia.Messages.Defs.{Client}
use artemisia.Senders.Connect.{local_properties, receive_properties, received_maximum}

-- The property of the receive maximum that the client adds.
abbrev pub maximum_property : ℕ → Property
maximum_property w = record {
  value = i16 w;
  name = null_str;
  identifier = 33;
  client_generated = true;
}

-- What an application's properties make of a client: before MQTT 5, or with a receive maximum of its
-- own, or with one that the client adds.
pub data Prepared (properties : List Property) (c : Client)
    : Protocol → List Property → Client → Type 0 where
  mqtt31 : Prepared properties c Protocol.mqtt31 [] c
  mqtt311 : Prepared properties c Protocol.mqtt311 [] c
  added :
      Lacks 33 properties
      → Prepared properties c Protocol.mqtt5 (maximum_property c.msgs_in.inflight_maximum ∷ []) c
  given :
      (front : List Property) (p : Property) (back : List Property) (w : ℕ)
      → properties ≡ front ++ (p ∷ back)
      → Lacks 33 front
      → p.identifier ≡ 33
      → p.value ≡ i16 w
      → Prepared properties c Protocol.mqtt5 []
          (record c { msgs_in = record (c.msgs_in) { inflight_maximum = w; inflight_quota = w } })

receive_properties-none :
    (properties : List Property) (c : Client)
    → read_int16_property properties 33 false ≡ none
    → receive_properties true properties c
      ≡ some (Rc.success, maximum_property c.msgs_in.inflight_maximum ∷ [], c)
unfolding receive_properties add_int16 property_add
receive_properties-none properties c e = rw (receive_properties, e) refl

receive_properties-some :
    (properties : List Property) (c : Client) (p : Property) (w : ℕ)
    → read_int16_property properties 33 false ≡ some p
    → p.value ≡ i16 w
    → receive_properties true properties c ≡ some (Rc.success, [], received_maximum w c)
unfolding receive_properties
receive_properties-some properties c p w e v = rw (receive_properties, e, v) refl

read_int16_property-given :
    (front : List Property) (p : Property) (back : List Property)
    → Lacks 33 front
    → p.identifier ≡ 33
    → read_int16_property (front ++ (p ∷ back)) 33 false ≡ some p
unfolding read_int16_property
read_int16_property-given front p back lacks id =
    let first = (get_property_lem front p back (subst (λ i. Lacks i front) (sym id) lacks)).0 in
    ap (of_type is_int16) (ap (λ i. get_property (front ++ (p ∷ back)) i false) (sym id) ∙ first)
    ∙ ap (λ b. if b then some p else none) (ap is_int16 id)

pub local_properties-Prepared :
    (protocol : Protocol) (properties local : List Property) (c c' : Client)
    → Prepared properties c protocol local c'
    → local_properties protocol true properties c ≡ some (Rc.success, local, c')
unfolding read_int16_property
local_properties-Prepared protocol properties local c c' Prepared.mqtt31 = refl
local_properties-Prepared protocol properties local c c' Prepared.mqtt311 = refl
local_properties-Prepared protocol properties local c c' (Prepared.added lacks) =
    receive_properties-none properties c
      (ap (of_type is_int16) (get_property-Lacks properties 33 lacks))
local_properties-Prepared protocol properties local c c'
      (Prepared.given front p back w e lacks id v) =
    receive_properties-some properties c p w
      (ap (λ ps. read_int16_property ps 33 false) e
        ∙ read_int16_property-given front p back lacks id)
      v
