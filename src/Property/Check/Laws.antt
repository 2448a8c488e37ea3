-- ===== src/Property/Check/Laws.antt =====
-- What `mosquitto_property_check_all` depends on and what it rules out.
use artemisia.Base.{ℕ, ◌≡◌, refl}
use artemisia.Base.{List, [], ◌∷◌, map, Rc, if◌then◌else◌}
use artemisia.Property.Defs.{Property}
use artemisia.Property.Wire.{from_wire}
use artemisia.Property.Check.{check_command, is_bad_value, has_duplicate, after_command, check_all}

has_duplicate-from_wire :
    (id : ℕ) (ps : List Property) → has_duplicate id (map from_wire ps) ≡ has_duplicate id ps
unfolding has_duplicate
has_duplicate-from_wire id [] = refl
has_duplicate-from_wire id (p ∷ ps) = rw (has_duplicate-from_wire id ps)

-- The check does not look at `client_generated`.
pub check_all-from_wire :
    (command : ℕ) (ps : List Property) → check_all command (map from_wire ps) ≡ check_all command ps
unfolding check_all is_bad_value
check_all-from_wire command [] = refl
check_all-from_wire command (p ∷ ps) = λ i.
    if is_bad_value p
    then Rc.protocol
    else after_command (check_command command p.identifier)
        (has_duplicate-from_wire p.identifier ps i) (check_all-from_wire command ps i)
