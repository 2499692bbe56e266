-- ===== src/Ota/Socket/Stream.antt =====
-- `recv_fully` reads the stream of a socket: what it returns is the next `n` bytes.
use esp32_remot_control.Prelude.{
  ℕ, ◌-◌, ◌≤◌, ◌<◌, ◌≡◌, [], ◌∷◌, ◌++◌, append-nil, append_assoc, length, take, drop,
  take-append_ge, drop-append_ge, take-append_le, drop-append_le, length-append, length-drop, Bytes,
  arith,
}
use esp32_remot_control.Ota.Socket.{
  chunk, eintr, failed, Socket, Received, got, closed, broken, recv_fully,
}

-- All that the chunks of a socket hold.
abbrev pub stream : Socket → Bytes
stream [] = []
stream (chunk d ∷ k) = d ++ stream k
stream (eintr ∷ k) = stream k
stream (failed ∷ k) = stream k

-- The peer has neither closed nor failed.
abbrev pub IsClean : Socket → Type 0
IsClean [] = Unit
IsClean (chunk d ∷ k) = (0 < length d) × IsClean k
IsClean (eintr ∷ k) = IsClean k
IsClean (failed ∷ k) = ⊥

-- A read of `n` bytes that fills a buffer with `acc` in it has taken the next `n` bytes.
abbrev pub ReadsNext : ℕ → Bytes → Socket → Received → Socket → Type 0
ReadsNext n acc k (got d) k' =
    (d ≡ acc ++ take n (stream k)) × (n ≤ length (stream k)) × (stream k' ≡ drop n (stream k))
ReadsNext n acc k closed k' = Unit
ReadsNext n acc k broken k' = Unit

pub recv_fully-ReadsNext :
    (n : ℕ) (acc : Bytes) (k : Socket) → let (r, k') = recv_fully n acc k in ReadsNext n acc k r k'
unfolding recv_fully
recv_fully-ReadsNext n acc [] = ground (arith, append-nil acc)
recv_fully-ReadsNext n acc (eintr ∷ k) =
    ground (arith, append-nil acc, recv_fully-ReadsNext n acc k)
recv_fully-ReadsNext n acc (failed ∷ k) = ground (arith, append-nil acc)
recv_fully-ReadsNext n acc (chunk d ∷ k) = ground (
  arith,
  append-nil acc,
  append_assoc acc d (take (n - length d) (stream k)),
  recv_fully-ReadsNext (n - length d) (acc ++ d) k,
  take-append_ge n d (stream k),
  drop-append_ge n d (stream k),
  take-append_le n d (stream k),
  drop-append_le n d (stream k),
  length-append d (stream k),
)

-- A clean socket that holds `n` bytes gives them, and stays clean.
pub recv_fully-IsClean :
    (n : ℕ) (acc : Bytes) (k : Socket)
    → IsClean k
    → n ≤ length (stream k)
    → let (r, k') = recv_fully n acc k in (r ≡ got (acc ++ take n (stream k))) × IsClean k'
unfolding recv_fully
recv_fully-IsClean n acc [] c h = ground (arith, append-nil acc)
recv_fully-IsClean n acc (eintr ∷ k) c h =
    ground (arith, append-nil acc, recv_fully-IsClean n acc k)
recv_fully-IsClean n acc (failed ∷ k) c h = absurd c
recv_fully-IsClean n acc (chunk d ∷ k) c h = ground (
  arith,
  append-nil acc,
  append_assoc acc d (take (n - length d) (stream k)),
  recv_fully-IsClean (n - length d) (acc ++ d) k,
  take-append_ge n d (stream k),
  take-append_le n d (stream k),
  length-append d (stream k),
  length-drop n d,
)
