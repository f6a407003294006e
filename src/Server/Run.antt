-- ===== src/Server/Run.antt =====
-- `Server::Run`: the socket is set up, and then one connection is served after the other, until the process
-- ends. What the system calls return is an argument.
pub mod Asked
pub mod Hosts
use virtual_usb_printer.Common.{
  ℕ, Bool, false, Option, none, some, List, [], ◌∷◌, exited, Result, ok, err, ◌>>=◌, ◌>>◌, require,
  Bytes,
}
use virtual_usb_printer.BaseStrings.{BaseStrings}
use virtual_usb_printer.Printer.Data.{EsclService, UsbPrinter}
use virtual_usb_printer.Server.Connection.{Connection, handle_connection}

-- Whether each call succeeds. A `setsockopt` that fails is logged and no more.
pub record Network : Type 0 where
  pub socket : Bool
  pub bind : Bool
  pub inet_ntop : Bool
  pub listen : Bool

-- `SetupServerSocket`
unfoldable pub setup_server_socket : Network → Result (Unit {0})
setup_server_socket network = require network.socket exited

-- `BindServerSocket`
unfoldable pub bind_server_socket : Network → Result (Unit {0})
bind_server_socket network = require network.bind exited

-- `ReportBoundAddress`
unfoldable pub report_bound_address : Network → Result (Unit {0})
report_bound_address network = require network.inet_ntop exited

-- What a connection starts with.
abbrev pub new_connection : {E : Type 0} → UsbPrinter E → List Bytes → Connection E
new_connection printer incoming = record {
  printer = printer;
  attached = false;
  incoming = incoming;
  sent = [];
}

-- `AcceptConnection`: what the next host will send; `none` is a call of `accept` that fails.
abbrev pub accept_connection : Option (List Bytes) → Result (List Bytes)
accept_connection none = err exited
accept_connection (some incoming) = ok incoming

module _ {E : Type 0} (base : BaseStrings) (escl : EsclService E) where
  -- The loop over the hosts that connect, each served for the rounds given: the printer behind them, and what
  -- each of them was sent. Behind the last of them the server waits.
  unfoldable pub run_connections :
      ℕ → UsbPrinter E → List (Option (List Bytes)) → Result (UsbPrinter E × List (List Bytes))
  unfolding handle_connection
  run_connections rounds printer [] = ok (printer, [])
  run_connections rounds printer (host ∷ hosts) = accept_connection host >>= λ incoming.
      handle_connection base escl rounds (new_connection printer incoming) >>= λ served.
      run_connections rounds served.printer hosts >>= λ rest. ok (rest.0, served.sent ∷ rest.1)

  unfoldable pub run :
      ℕ
      → Network
      → UsbPrinter E
      → List (Option (List Bytes))
      → Result (UsbPrinter E × List (List Bytes))
  unfolding setup_server_socket bind_server_socket report_bound_address run_connections
  run rounds network printer hosts =
      setup_server_socket network
      >> (bind_server_socket network
          >> (report_bound_address network
              >> (require network.listen exited >> run_connections rounds printer hosts)))
