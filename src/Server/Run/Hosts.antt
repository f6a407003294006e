-- ===== src/Server/Run/Hosts.antt =====
-- One host after another.
use virtual_usb_printer.Common.{
  ℕ, suc, Bool, ◌&&◌, if◌then◌else◌, inl, inr, Bool-cases, exited, ◌≤◌, ◌<◌, ◌≡◌, refl, true,
  Option, some, List, [], ◌∷◌, ◌++◌, arith, length, take, replicate, All, check_failed, ok, err,
  Bytes,
}
use virtual_usb_printer.BaseStrings.{BaseStrings}
use virtual_usb_printer.ByteOrder.{swap}
use virtual_usb_printer.Usbip.{field_at}
use virtual_usb_printer.OpCommands.{unpack_op_header}
use virtual_usb_printer.Printer.Data.{EsclService, UsbPrinter}
use virtual_usb_printer.Server.Socket.{recv}
use virtual_usb_printer.Server.Received.{joined, IsNonempty}
use virtual_usb_printer.Server.Connection.{
  Connection, header_of, read_bus_id, handle_attach, handle_op_request, handle_connection,
}
use virtual_usb_printer.Server.Connection.Closed.{Requests, closed_after}
use virtual_usb_printer.Server.Run.Asked.{
  list_request, has_whole_header, device_list, list_request_lem, cut_header_lem,
}
use virtual_usb_printer.Server.Run.{
  Network, setup_server_socket, bind_server_socket, report_bound_address, new_connection,
  run_connections, run,
}

-- The header of a request to attach the device, as the protocol lays it out: version, command, status.
abbrev pub import_request : Bytes
import_request = 0x01 ∷ 0x11 ∷ 0x80 ∷ 0x03 ∷ 0 ∷ 0 ∷ 0 ∷ 0 ∷ []

-- What a host that asks for the devices sends begins with the header of that request, in whatever segments.
abbrev pub IsAsking : List Bytes → Type 0
IsAsking host = take 8 (joined host) ≡ list_request

abbrev pub accepted : List (List Bytes) → List (Option (List Bytes))
accepted [] = []
accepted (host ∷ hosts) = some host ∷ accepted hosts

abbrev pub all_whole : List (List Bytes) → Bool
all_whole [] = true
all_whole (host ∷ hosts) = has_whole_header host && all_whole hosts

-- What a host sends that attaches the device: the header, which one `recv` gets, the bus id, which the next one
-- gets, and the rest.
pub record Attaches (host rest : List Bytes) : Type 0 where
  pub busid : Bytes
  pub behind : List Bytes
  pub header : recv 8 host ≡ (import_request, behind)
  pub named : recv 32 behind ≡ (busid, rest)
  pub size : length busid ≡ 32

-- The connection behind the answer.
abbrev pub attached_connection : {E : Type 0} → UsbPrinter E → List Bytes → Connection E
attached_connection printer rest = record (handle_attach (new_connection printer rest)) {
  attached = true;
}

module _ {E : Type 0} (base : BaseStrings) (escl : EsclService E) where
  attach_lem :
      (rounds n : ℕ) (printer : UsbPrinter E) (host rest : List Bytes) (last : Connection E)
      → Attaches host rest
      → Requests base escl (attached_connection printer rest) last n
      → n < rounds
      → All IsNonempty last.incoming
      → length (joined last.incoming) < 48
      → handle_connection base escl (suc rounds) (new_connection printer host) ≡ err check_failed
  unfolding handle_connection handle_op_request header_of unpack_op_header read_bus_id handle_attach
      field_at swap
  attach_lem rounds n printer host rest last h served enough v short = rw h.header (
      rw h.named (
        rw h.size (
          closed_after base escl rounds n (attached_connection printer rest) last served enough refl
            v short)))

  -- Every call that sets the socket up succeeds.
  abbrev pub IsUp : Network → Type 0
  IsUp network = network ≡ record { socket = true; bind = true; inet_ntop = true; listen = true }

  asking_lem :
      (rounds : ℕ) (printer : UsbPrinter E) (hosts : List (List Bytes))
      → All IsAsking hosts
      → printer.usb_descriptors.configuration_descriptor.b_num_interfaces
        ≤ length printer.usb_descriptors.interface_descriptors
      → run_connections base escl (suc rounds) printer (accepted hosts) ≡ (
          if all_whole hosts
          then ok (printer, replicate (length hosts) (device_list printer.usb_descriptors ∷ []))
          else err exited)
  unfolding run_connections
  asking_lem rounds printer [] asks h = refl
  asking_lem rounds printer (host ∷ hosts) asks h = elim (Bool-cases (has_whole_header host)) [
    | inr cut ↦ rw (cut_header_lem base escl rounds printer host cut) (rw cut refl)
    | inl whole ↦ rw (list_request_lem base escl rounds printer host asks.0 whole h) (
        rw (asking_lem rounds printer hosts asks.1 h) (elim (Bool-cases (all_whole hosts)) [
          | inl all ↦ rw (whole, all) refl
          | inr cut ↦ rw (whole, cut) refl
        ]))
  ]

  closed_behind :
      (rounds n : ℕ) (printer : UsbPrinter E) (before : List (List Bytes)) (host rest : List Bytes)
      (last : Connection E) (after : List (Option (List Bytes)))
      → printer.usb_descriptors.configuration_descriptor.b_num_interfaces
        ≤ length printer.usb_descriptors.interface_descriptors
      → All IsAsking before
      → all_whole before ≡ true
      → Attaches host rest
      → Requests base escl (attached_connection printer rest) last n
      → n < rounds
      → All IsNonempty last.incoming
      → length (joined last.incoming) < 48
      → run_connections base escl (suc rounds) printer (accepted before ++ (some host ∷ after))
        ≡ err check_failed
  unfolding run_connections
  closed_behind rounds n printer [] host rest last after h asks whole attaches served enough v
        short =
      rw (attach_lem rounds n printer host rest last attaches served enough v short) refl
  closed_behind rounds n printer (one ∷ before) host rest last after h asks whole attaches served
        enough v short =
      let first : has_whole_header one ≡ true = ground arith in
      let others : all_whole before ≡ true = ground arith in
      rw (list_request_lem base escl rounds printer one asks.0 first h) (
        rw
          (closed_behind rounds n printer before host rest last after h asks.1 others attaches
            served enough v short)
          refl)

  -- Where the socket can be set up and the configuration announces no more interfaces than there are, hosts
  -- that ask for the devices one after another, however many and in whatever segments, are each answered with
  -- the list of the one device, as the protocol lays it out, and the printer stays as it is, if one `recv` gets
  -- the whole 8 bytes of each host's header; if the first segment of some header is shorter, the process exits.
  pub run-asking :
      (rounds : ℕ) (network : Network) (printer : UsbPrinter E) (hosts : List (List Bytes))
      → IsUp network
      → All IsAsking hosts
      → printer.usb_descriptors.configuration_descriptor.b_num_interfaces
        ≤ length printer.usb_descriptors.interface_descriptors
      → run base escl (suc rounds) network printer (accepted hosts) ≡ (
          if all_whole hosts
          then ok (printer, replicate (length hosts) (device_list printer.usb_descriptors ∷ []))
          else err exited)
  unfolding run setup_server_socket bind_server_socket report_bound_address
  run-asking rounds network printer hosts up asks h = rw up (asking_lem rounds printer hosts asks h)

  -- Where the socket can be set up and the configuration announces no more interfaces than there are, a host
  -- that attaches the device (one `recv` gets the whole header, the next one the whole bus id), is served any
  -- number of requests, for which the loop has the rounds, and then closes the connection between two requests or inside the first 48 bytes of
  -- one, ends the process by a failed CHECK, whether or not hosts whose headers arrive whole were given the list
  -- of devices before: no host that connects after it is served.
  pub run_closed :
      (rounds n : ℕ) (network : Network) (printer : UsbPrinter E) (before : List (List Bytes))
      (host rest : List Bytes) (last : Connection E) (after : List (Option (List Bytes)))
      → IsUp network
      → printer.usb_descriptors.configuration_descriptor.b_num_interfaces
        ≤ length printer.usb_descriptors.interface_descriptors
      → All IsAsking before
      → all_whole before ≡ true
      → Attaches host rest
      → Requests base escl (attached_connection printer rest) last n
      → n < rounds
      → All IsNonempty last.incoming
      → length (joined last.incoming) < 48
      → run base escl (suc rounds) network printer (accepted before ++ (some host ∷ after))
        ≡ err check_failed
  unfolding run setup_server_socket bind_server_socket report_bound_address
  run_closed rounds n network printer before host rest last after up h asks whole attaches served
        enough v short =
      rw up (
        closed_behind rounds n printer before host rest last after h asks whole attaches served
          enough v short)
