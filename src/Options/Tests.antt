-- ===== src/Options/Tests.antt =====
-- A name and a password that are set.
use artemisia.Base.{Bytes, Option, none, some, [], ◌∷◌}
use artemisia.State.{Protocol}
use artemisia.Options.{Credentials}

abbrev credentials : Credentials
credentials = record { protocol = Protocol.mqtt311; username = none; password = none }

abbrev name : Option Bytes
name = some (117 ∷ [])

abbrev secret : Option Bytes
secret = some (112 ∷ [])
