-- ===== src/Tcp/Examples.antt =====
-- A net with two clients, and instances of the theorems.
use esp32_remot_control.Prelude.{refl, true, false, [], ◌∷◌, codes}
use esp32_remot_control.Framing.{client_buffer}
use esp32_remot_control.Command.Dispatch.{cmd_dispatch_line}
use esp32_remot_control.Command.Fixtures.{env, board}
use esp32_remot_control.Command.Router.{Peripherals}
use esp32_remot_control.Gatt.Credentials.{dispatch_on}
use esp32_remot_control.Gatt.Server.Lines.{Untouched}
use esp32_remot_control.Tcp.{Net, receives, take_client, tcp_step}
use esp32_remot_control.Tcp.Guests.{TcpVisit, here, next, tcp_guests_spare}
use esp32_remot_control.Tcp.Late.{waiting}

abbrev net : Net
net = record {
  s_client_count = 2;
  clients = waiting 54 true ∷ waiting 55 false ∷ [];
  board = board;
  closed = [];
}

abbrev sensor : Peripherals
sensor = record {
  led_level = 0;
  dht = record {
    inited = true;
    def_period_ms = 2000;
    stream_on = false;
    period_ms = 2000;
    last_tick = 0;
    last = record { valid = false; temp_c = 0; rh = 0 };
    task = true;
    woken = false;
  };
  answers = [];
}

visit_guest : TcpVisit env net (tcp_step env (receives 55 (codes "led_on\n")) net)
unfolding take_client client_buffer dispatch_on cmd_dispatch_line
visit_guest = next (receives 55 (codes "led_on\n")) here refl

tcp_guests_spare_example : Untouched board (tcp_step env (receives 55 (codes "led_on\n")) net).board
tcp_guests_spare_example =
    tcp_guests_spare env net (tcp_step env (receives 55 (codes "led_on\n")) net) visit_guest
