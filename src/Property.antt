-- ===== src/Property.antt =====
-- property_mosq.c: MQTT 5 properties.
pub mod Ident
pub mod Command
pub mod Defs
pub mod Check
pub mod Read
pub mod Write
pub mod Store
pub mod Lookup
pub mod Copy
pub mod Wire
pub mod RoundTrip
mod Tests
