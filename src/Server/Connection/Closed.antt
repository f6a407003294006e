-- ===== src/Server/Connection/Closed.antt =====
-- What becomes of the server when the host closes the connection.
use virtual_usb_printer.Common.{
  ℕ, zero, suc, ◌<◌, ◌≡◌, refl, sym, ap, subst, ◌∙◌, Bool, true, List, length, All, inl, inr, ◌==◌,
  ◌>>=◌, ◌>>◌, ◌^◌, [], ltb, if◌then◌else◌, require, exited, arith, Bool-cases, check_failed,
  Result, ok, err, Ensures, Ensures-read, Ensures-ok, Bytes,
}
use virtual_usb_printer.BaseStrings.{BaseStrings}
use virtual_usb_printer.Usbip.{
  UsbipCmdSubmit, unpack_usbip_cmd_submit, command_usbip_cmd_submit, command_usbip_cmd_unlink,
}
use virtual_usb_printer.Printer.Bulk.{to_size_t}
use virtual_usb_printer.Printer.Data.{EsclService}
use virtual_usb_printer.Printer.Dispatch.{handle_usb_request}
use virtual_usb_printer.Server.Socket.{receive_buffer}
use virtual_usb_printer.Server.Received.{joined, IsNonempty, IsReceived, receive_buffer_lem}
use virtual_usb_printer.Server.Connection.{
  Connection, takes_data, handle_op_request, serve_submit, handle_command, handle_connection,
}

-- What is received of fewer bytes than a request has is nothing.
closed_early :
    (incoming : List Bytes)
    → All IsNonempty incoming
    → length (joined incoming) < 48
    → receive_buffer 48 incoming ≡ ok ([], [])
unfolding IsReceived
closed_early incoming v h =
    let (r, e, p) = receive_buffer_lem 48 incoming v in
    let (buf, left) = p.1 h in e ∙ λ i. ok (buf i, left i)

module _ {E : Type 0} (base : BaseStrings) (escl : EsclService E) where
  -- A host that has attached the printer ends the process when it closes the connection between two
  -- requests or inside the first 48 bytes of one: the loop does not end, a CHECK fails.
  handle_connection_closed :
      (fuel : ℕ) (self : Connection E)
      → self.attached ≡ true
      → All IsNonempty self.incoming
      → length (joined self.incoming) < 48
      → handle_connection base escl (suc fuel) self ≡ err check_failed
  unfolding handle_connection handle_command unpack_usbip_cmd_submit
  handle_connection_closed fuel self a v h =
      rw (a, handle_connection) (rw (closed_early self.incoming v h, handle_command) refl)

  -- The host stays attached.
  abbrev Stays : Connection E → Bool × Connection E → Type 0
  Stays self served = served.1.attached ≡ self.attached

  serve_submit-Stays :
      (self : Connection E) (command : UsbipCmdSubmit) (incoming : List Bytes)
      → Ensures (Stays self) (serve_submit base escl self command incoming)
  unfolding serve_submit
  serve_submit-Stays self command incoming =
      Ensures-read (Stays self)
        (if takes_data command
          then (require (ltb command.transfer_buffer_length (2 ^ 31)) exited
              >> receive_buffer (to_size_t command.transfer_buffer_length) incoming)
          else ok ([], incoming))
        _
        λ got _.
          Ensures-read (Stays self) (handle_usb_request base escl self.printer command (got.0)) _
            λ served _. refl

  handle_command-Stays :
      (self : Connection E) → Ensures (Stays self) (handle_command base escl self)
  unfolding handle_command
  handle_command-Stays self =
      Ensures-read (Stays self) (receive_buffer 48 self.incoming) _ λ received _.
        Ensures-read (Stays self) (unpack_usbip_cmd_submit (received.0)) _ λ unpacked _.
          let id = (unpacked.0).header.command in
          elim (Bool-cases (id == command_usbip_cmd_submit)) [
            | inl a ↦ rw a (serve_submit-Stays self (unpacked.0) (received.1))
            | inr a ↦ elim (Bool-cases (id == command_usbip_cmd_unlink)) [
              | inl b ↦ rw (a, b) refl
              | inr b ↦ rw (a, b) refl
            ]
          ]

  -- From one state of a connection to another by that many requests, each of them served.
  pub data Requests : Connection E → Connection E → ℕ → Type 0 where
    no_more : {c : Connection E} → Requests c c zero
    request :
        {c d last : Connection E} {n : ℕ}
        → handle_command base escl c ≡ ok (true, d)
        → Requests d last n
        → Requests c last (suc n)

  -- What a round does behind the one that is done.
  abbrev next_round : ℕ → Bool × Connection E → Result (Connection E)
  next_round rounds r = if r.0 then handle_connection base escl rounds (r.1) else ok (r.1)

  served_round :
      (rounds : ℕ) (c d : Connection E)
      → handle_command base escl c ≡ ok (true, d)
      → c.attached ≡ true
      → handle_connection base escl (suc rounds) c ≡ handle_connection base escl rounds d
  unfolding handle_connection
  served_round rounds c d e a =
      subst
        (λ (x : Bool).
          ((if x then handle_command base escl c else handle_op_request c) >>= next_round rounds)
          ≡ handle_connection base escl rounds d)
        (sym a) (ap (λ (m : Result (Bool × Connection E)). m >>= next_round rounds) e)

  -- The same of a host that was served any number of requests before.
  pub closed_after :
      (rounds n : ℕ) (self last : Connection E)
      → Requests self last n
      → n < rounds
      → self.attached ≡ true
      → All IsNonempty last.incoming
      → length (joined last.incoming) < 48
      → handle_connection base escl rounds self ≡ err check_failed
  closed_after zero n self last served h a v short = absurd (omega arith)
  closed_after (suc rounds) zero self _ no_more h a v short =
      handle_connection_closed rounds self a v short
  closed_after (suc rounds) (suc n) self last (request {d = d} e served) h a v short =
      let stays = Ensures-ok (Stays self) _ (true, d) (handle_command-Stays self) e in
      served_round rounds self d e a
      ∙ closed_after rounds n d last served (omega arith) (stays ∙ a) v short
