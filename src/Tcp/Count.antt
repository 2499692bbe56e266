-- ===== src/Tcp/Count.antt =====
-- The count of clients.
use esp32_remot_control.Prelude.{
  ℕ, ◌+◌, ◌≡◌, refl, Bool, true, false, Option, none, some, List, [], ◌∷◌, Bytes, if◌then◌else◌,
  Bool-cases, inl, inr, arith,
}
use esp32_remot_control.Command.{Environment}
use esp32_remot_control.Tcp.{
  TcpClient, Net, TcpEvent, accepts, begins, ends, receives, keep_client, is_client, take_client,
  tcp_step, tcp_client_spawn, begin_client, serve, end_client, tcp_on_client_connected,
  tcp_on_client_disconnected,
}

abbrev pub one_if : Bool → ℕ
one_if b = if b then 1 else 0

abbrev pub begun_count : List TcpClient → ℕ
begun_count [] = 0
begun_count (c ∷ cs) = one_if c.begun + begun_count cs

-- The count is that of the tasks which have begun and not ended.
pub record IsCounted (n : Net) : Type 0 where
  pub counted : n.s_client_count ≡ begun_count n.clients

kept :
    (d : TcpClient) (o : Option (TcpClient × List TcpClient)) (c : TcpClient)
    (rest : List TcpClient)
    → keep_client d o ≡ some (c, rest)
    → (rest' : List TcpClient) × (o ≡ some (c, rest')) × (d ∷ rest' ≡ rest)
kept d none c rest h = absurd cc
kept d (some (e, rest')) c rest h = (rest', ground arith, ground arith)

take_client-begun :
    (fd : ℕ) (g : Bool) (cs : List TcpClient) (c : TcpClient) (rest : List TcpClient)
    → take_client fd g cs ≡ some (c, rest)
    → (c.begun ≡ g) × (begun_count cs ≡ one_if g + begun_count rest)
unfolding take_client
take_client-begun fd g [] c rest h = absurd cc
take_client-begun fd g (d ∷ cs) c rest h = elim (Bool-cases (is_client fd g d)) [
  | inl y ↦ (ground arith, ground arith)
  | inr n ↦
      let (rest', e, r) = kept d (take_client fd g cs) c rest (rw n at h) in
      let (b, m) = take_client-begun fd g cs c rest' e in (b, rw⁻¹ r (omega (arith, m)))
]

begin-IsCounted :
    (fd : ℕ) (o : Option (TcpClient × List TcpClient)) (n : Net)
    → take_client fd false n.clients ≡ o
    → IsCounted n
    → IsCounted (begin_client o n)
unfolding begin_client tcp_on_client_connected
begin-IsCounted fd none n e i = i
begin-IsCounted fd (some (c, rest)) n e i =
    ground (arith, take_client-begun fd false n.clients c rest e)

serve-IsCounted :
    (env : Environment) (fd : ℕ) (buf : Bytes) (o : Option (TcpClient × List TcpClient)) (n : Net)
    → take_client fd true n.clients ≡ o
    → IsCounted n
    → IsCounted (serve env buf o n)
unfolding serve
serve-IsCounted env fd buf none n e i = i
serve-IsCounted env fd buf (some (c, rest)) n e i =
    ground (arith, take_client-begun fd true n.clients c rest e)

end-IsCounted :
    (env : Environment) (fd : ℕ) (o : Option (TcpClient × List TcpClient)) (n : Net)
    → take_client fd true n.clients ≡ o
    → IsCounted n
    → IsCounted (end_client env o n)
unfolding end_client tcp_on_client_disconnected
end-IsCounted env fd none n e i = i
end-IsCounted env fd (some (c, rest)) n e i =
    ground (arith, take_client-begun fd true n.clients c rest e)

-- The tasks of the listener and of its clients, interleaved in whatever order.
unfoldable pub tcp_run : Environment → List TcpEvent → Net → Net
tcp_run env [] n = n
tcp_run env (e ∷ es) n = tcp_run env es (tcp_step env e n)

tcp_step-IsCounted :
    (env : Environment) (e : TcpEvent) (n : Net) → IsCounted n → IsCounted (tcp_step env e n)
unfolding tcp_step tcp_client_spawn
tcp_step-IsCounted env (accepts fd) n i = ground arith
tcp_step-IsCounted env (begins fd) n i = begin-IsCounted fd _ n refl i
tcp_step-IsCounted env (receives fd buf) n i = serve-IsCounted env fd buf _ n refl i
tcp_step-IsCounted env (ends fd) n i = end-IsCounted env fd _ n refl i

-- In whatever order connections are accepted, served and closed, the count is that of the client
-- tasks which have begun and not ended.
pub tcp_run-IsCounted :
    (env : Environment) (es : List TcpEvent) (n : Net) → IsCounted n → IsCounted (tcp_run env es n)
unfolding tcp_run
tcp_run-IsCounted env [] n i = i
tcp_run-IsCounted env (e ∷ es) n i =
    tcp_run-IsCounted env es (tcp_step env e n) (tcp_step-IsCounted env e n i)
