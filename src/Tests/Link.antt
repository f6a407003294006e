-- ===== src/Tests/Link.antt =====
-- The server's side of a connection.
use virtual_usb_printer.Common.{
  ◌++◌, replicate, ℕ, Option, none, some, ◌≡◌, refl, true, List, [], ◌∷◌, arith, All, check_failed,
  ok, err, exited, take, drop, Bytes,
}
use virtual_usb_printer.ByteOrder.{wire, swap}
use virtual_usb_printer.SmartBuffer.{SmartBuffer, erase}
use virtual_usb_printer.Printer.Control.{handle_usb_control}
use virtual_usb_printer.Server.Socket.{recv, receive_buffer}
use virtual_usb_printer.Server.Received.{IsNonempty, IsReceived, receive_buffer_lem}
use virtual_usb_printer.Server.Send.{send_buffer}
use virtual_usb_printer.Server.Send.Sent.{IsSending, send_buffer_lem}
use virtual_usb_printer.Server.Run.{Network, run}
use virtual_usb_printer.Server.Run.Hosts.{
  import_request, IsAsking, accepted, Attaches, attached_connection, run-asking, run_closed,
}
use virtual_usb_printer.Server.Run.Asked.{list_request, device_list}
use virtual_usb_printer.Server.Connection.{Connection, handle_attach, handle_command}
use virtual_usb_printer.Server.Connection.Closed.{Requests, no_more, request}
use virtual_usb_printer.Printer.Setup.{setup_wire, word}
use virtual_usb_printer.Usbip.Wire.{cmd_submit_wire}
use virtual_usb_printer.Tests.Data.{base, escl, printer, descriptors, submit, get_configuration}

abbrev segments : List Bytes
segments = (1 ∷ 2 ∷ []) ∷ (3 ∷ 4 ∷ 5 ∷ []) ∷ []

segments-IsNonempty : All IsNonempty segments
segments-IsNonempty = (omega arith, (omega arith, tt))

received_three : receive_buffer 3 segments ≡ ok (1 ∷ 2 ∷ 3 ∷ [], (4 ∷ 5 ∷ []) ∷ [])
unfolding receive_buffer
received_three = refl

receive_buffer_lem_example :
    (r : SmartBuffer × List Bytes) × (receive_buffer 3 segments ≡ ok r) × IsReceived 3 [] segments r
receive_buffer_lem_example = receive_buffer_lem 3 segments segments-IsNonempty

-- A kernel that takes one byte at a time.
abbrev one_byte : ℕ → Bytes → Option ℕ
one_byte call offered = some 1

one_byte-IsSending : IsSending one_byte
one_byte-IsSending call offered h = (1, refl, omega arith, h)

send_buffer_lem_example : send_buffer one_byte (1 ∷ 2 ∷ 3 ∷ []) ≡ ok (1 ∷ 2 ∷ 3 ∷ [])
send_buffer_lem_example = send_buffer_lem one_byte (1 ∷ 2 ∷ 3 ∷ []) one_byte-IsSending

send_fails : send_buffer (λ call offered. none) (1 ∷ []) ≡ err check_failed
unfolding send_buffer
send_fails = refl

-- Two hosts that ask for the devices, the second in a segment with another byte behind.
abbrev two_hosts : List (List Bytes)
two_hosts = (list_request ∷ []) ∷ ((list_request ++ (1 ∷ [])) ∷ (2 ∷ []) ∷ []) ∷ []

two_hosts-IsAsking : All IsAsking two_hosts
two_hosts-IsAsking = (refl, (refl, tt))

abbrev network : Network
network = record { socket = true; bind = true; inet_ntop = true; listen = true }

run-asking_example :
    run base escl 1 network (printer []) (accepted two_hosts)
    ≡ ok (printer [], replicate 2 (device_list descriptors ∷ []))
run-asking_example =
    run-asking base escl 0 network (printer []) two_hosts refl two_hosts-IsAsking (omega arith)

-- The header of the second host arrives in two segments.
abbrev cut_hosts : List (List Bytes)
cut_hosts = (list_request ∷ []) ∷ (take 3 list_request ∷ drop 3 list_request ∷ []) ∷ []

cut_exits : run base escl 1 network (printer []) (accepted cut_hosts) ≡ err exited
cut_exits =
    run-asking base escl 0 network (printer []) cut_hosts refl (refl, (refl, tt)) (omega arith)

-- Another host attaches the device, asks for the configuration, and closes the connection inside a request.
abbrev asked : Bytes
asked = cmd_submit_wire (submit 0 (word (setup_wire get_configuration) 0))

abbrev busid : Bytes
busid = replicate 32 0

abbrev rest : List Bytes
rest = take 20 asked ∷ (drop 20 asked ++ (0 ∷ 0 ∷ [])) ∷ (0 ∷ 1 ∷ []) ∷ []

abbrev host : List Bytes
host = import_request ∷ busid ∷ rest

host-Attaches : Attaches host rest
unfolding recv
host-Attaches = record {
  busid = busid;
  behind = busid ∷ rest;
  header = refl;
  named = refl;
  size = refl;
}

abbrev first : Connection (Unit {0})
first = attached_connection (printer []) rest

abbrev last : Connection (Unit {0})
last = record first {
  incoming = (0 ∷ 0 ∷ []) ∷ (0 ∷ 1 ∷ []) ∷ [];
  sent = elim (handle_command base escl first) [ err fault ↦ [] | ok served ↦ served.1.sent ];
}

served : Requests base escl first last 1
unfolding handle_command handle_attach wire erase swap handle_usb_control setup_wire
served = request refl no_more

run_closed_example :
    run base escl 3 network (printer []) (accepted two_hosts ++ (some host ∷ none ∷ []))
    ≡ err check_failed
run_closed_example =
    run_closed base escl 2 1 network (printer []) two_hosts host rest last (none ∷ []) refl
      (omega arith) two_hosts-IsAsking refl host-Attaches served (omega arith)
      (omega arith, (omega arith, tt)) (omega arith)
