-- ===== src/Incoming/Socket.antt =====
-- What arrives at the socket, and `net__read` of net_mosq.c: at most so many bytes as are asked
-- for, and no more than have arrived together. It sets `errno` to 0 before it reads.
use artemisia.Base.{ℕ, zero, suc, ◌-◌, List, [], ◌∷◌, Bytes}

-- A `gap` ends the bytes that one read can give; at a `pause` nothing has arrived yet.
pub data Arrival : Type 0 where
  byte : ℕ → Arrival
  gap pause end conn_reset failure : Arrival

-- The reply has one byte at least, or says what `errno` is; `ended` is a length of 0.
pub data Reply : Type 0 where
  got : ℕ → Bytes → Reply
  ended again lost failed : Reply

-- The bytes of one read, and what is left.
unfoldable pub run : ℕ → List Arrival → Bytes × List Arrival
run zero s = ([], s)
run (suc n) (Arrival.byte b ∷ s) = let (bs, rest) = run n s in (b ∷ bs, rest)
run (suc n) s = ([], s)

unfoldable pub net_read : ℕ → List Arrival → Reply × List Arrival
net_read count [] = (again, [])
net_read count (Arrival.byte b ∷ s) = let (bs, rest) = run (count - 1) s in (got b bs, rest)
net_read count (Arrival.gap ∷ s) = net_read count s
net_read count (Arrival.pause ∷ s) = (again, s)
net_read count (Arrival.end ∷ s) = (ended, Arrival.end ∷ s)
net_read count (Arrival.conn_reset ∷ s) = (lost, s)
net_read count (Arrival.failure ∷ s) = (failed, s)
