-- ===== src/Property/Command.antt =====
-- The message types of include/mqtt_protocol.h, CMD_WILL included.
use artemisia.Base.{ℕ}

abbrev pub connect : ℕ
connect = 0x10

abbrev pub connack : ℕ
connack = 0x20

abbrev pub publish : ℕ
publish = 0x30

abbrev pub puback : ℕ
puback = 0x40

abbrev pub pubrec : ℕ
pubrec = 0x50

abbrev pub pubrel : ℕ
pubrel = 0x60

abbrev pub pubcomp : ℕ
pubcomp = 0x70

abbrev pub subscribe : ℕ
subscribe = 0x80

abbrev pub suback : ℕ
suback = 0x90

abbrev pub unsubscribe : ℕ
unsubscribe = 0xa0

abbrev pub unsuback : ℕ
unsuback = 0xb0

abbrev pub pingreq : ℕ
pingreq = 0xc0

abbrev pub pingresp : ℕ
pingresp = 0xd0

abbrev pub disconnect : ℕ
disconnect = 0xe0

abbrev pub auth : ℕ
auth = 0xf0

abbrev pub will : ℕ
will = 0x100
