-- ===== src/Property/Store/Laws.antt =====
-- What was added is found, and what is added can be sent.
use artemisia.Base.{ℕ, ◌≡◌, ◌≢◌, refl, sym, ap, ◌∙◌, arith, none}
use mathlib.Core.List.{append-nil}
use artemisia.Base.{true, false, Bool, some, List, [], ◌∷◌, ◌++◌, Rc, All}
use artemisia.Base.{◌==◌}
use artemisia.Property.Defs.{i8, Property, is_byte}
use artemisia.Property.Store.{
  property_add, generated, add_byte, get_loop, get_property, read_byte_property,
}

-- No property of the list has the identifier.
abbrev pub Lacks : ℕ → List Property → Type 0
Lacks id ps = All (λ (p : Property). p.identifier ≢ id) ps

get_loop-Lacks :
    (ps qs : List Property) (id : ℕ) (skip first : Bool)
    → Lacks id ps
    → get_loop (ps ++ qs) id skip first ≡ get_loop qs id skip first
unfolding get_loop
get_loop-Lacks [] qs id skip first h = refl
get_loop-Lacks (p ∷ ps) qs id skip first (hp, h) =
    let other : (p.identifier == id) ≡ false = ground arith in
    rw other (get_loop-Lacks ps qs id skip first h)

pub get_property-Lacks :
    (ps : List Property) (id : ℕ) → Lacks id ps → get_property ps id false ≡ none
unfolding get_property get_loop
get_property-Lacks ps id h =
    ap (λ l. get_loop l id false true) (sym (append-nil ps)) ∙ get_loop-Lacks ps [] id false true h

-- Once a property was skipped, none is skipped again.
skip_done : (ps : List Property) (id : ℕ) → get_loop ps id true false ≡ get_loop ps id false true
unfolding get_loop
skip_done [] id = refl
skip_done (p ∷ ps) id = ground (arith, skip_done ps id)

-- `property__get_property` gives the first property with the identifier, and with `skip_first` the
-- first one behind that.
pub get_property_lem :
    (front : List Property) (p : Property) (back : List Property)
    → Lacks p.identifier front
    → (get_property (front ++ (p ∷ back)) p.identifier false ≡ some p)
      × (get_property (front ++ (p ∷ back)) p.identifier true
          ≡ get_property back p.identifier false)
unfolding get_property
get_property_lem front p back h =
    let same : (p.identifier == p.identifier) ≡ true = ground arith in
    (
      get_loop-Lacks front (p ∷ back) p.identifier false true h ∙ unfold get_loop in rw same,
      get_loop-Lacks front (p ∷ back) p.identifier true true h
          ∙ unfold get_loop in rw same (skip_done back p.identifier),
    )

-- A byte that `mosquitto_property_add_byte` added to a list without the identifier is what
-- `mosquitto_property_read_byte` finds there, with the value, and the rest of the list is kept.
pub read_byte_property-add_byte :
    (ps : List Property) (id value : ℕ)
    → is_byte id ≡ true
    → Lacks id ps
    → ((add_byte ps id value true).0 ≡ Rc.success)
      × ((add_byte ps id value true).1 ≡ ps ++ (generated id (i8 value) ∷ []))
      × (read_byte_property (add_byte ps id value true).1 id false ≡ some (generated id (i8 value)))
unfolding add_byte read_byte_property property_add
read_byte_property-add_byte ps id value ok h =
    rw (ok, (get_property_lem ps (generated id (i8 value)) [] h).0) (refl, refl, rw ok)
