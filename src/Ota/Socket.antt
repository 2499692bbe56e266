-- ===== src/Ota/Socket.antt =====
-- The receiving side of components/ota/ota_handler.c: `recv_fully` over a socket given by what
-- each `recv` finds. A chunk that is longer than asked for stays in the socket with its rest; an
-- empty chunk is the peer's close, and a socket with nothing left times out.
pub mod Stream
use esp32_remot_control.Prelude.{
  ℕ, ◌-◌, List, [], ◌∷◌, ◌++◌, length, take, drop, Bytes, ltb, ◌==◌, if◌then◌else◌,
}

pub data Recv : Type 0 where
  chunk : Bytes → Recv
  eintr : Recv
  failed : Recv

abbrev pub Socket : Type 0
Socket = List Recv

-- What `recv_fully` returns: the count with the filled buffer, 0, or -1.
pub data Received : Type 0 where
  got : Bytes → Received
  closed : Received
  broken : Received

-- `n` is `len - got`, and `acc` what the buffer holds so far.
unfoldable pub recv_fully : ℕ → Bytes → Socket → Received × Socket
recv_fully n acc [] = if n == 0 then (got acc, []) else (broken, [])
recv_fully n acc (eintr ∷ k) =
    let rest = recv_fully n acc k in if n == 0 then (got acc, eintr ∷ k) else rest
recv_fully n acc (failed ∷ k) = if n == 0 then (got acc, failed ∷ k) else (broken, k)
recv_fully n acc (chunk d ∷ k) =
    let rest = recv_fully (n - length d) (acc ++ d) k in
    if n == 0
    then (got acc, chunk d ∷ k)
    else if length d == 0
    then (closed, k)
    else if ltb n (length d)
    then (got (acc ++ take n d), chunk (drop n d) ∷ k)
    else rest
