-- ===== src/Usbip/Wire.antt =====
-- The URB messages against the layout that the USB/IP protocol fixes: every field in network order.
use virtual_usb_printer.Common.{
  ℕ, suc, ◌*◌, ◌%◌, ◌^◌, ◌≤◌, ◌<◌, ◌≡◌, refl, sym, ap, subst, ◌∙◌, List, [], ◌∷◌, ◌++◌, append-nil,
  append_assoc, arith, lt→ltb, le→leb, length, take, drop, length-append, drop-length, take-length,
  check_failed, ok, err, Bytes,
}
use virtual_usb_printer.SmartBuffer.{SmartBuffer, add}
use virtual_usb_printer.SmartBuffer.Edit.{erase_front}
use virtual_usb_printer.ByteOrder.{mem, wire, swap, mem-swap, swap-load-wire, length-wire}
use virtual_usb_printer.Usbip.{
  UsbipHeaderBasic, UsbipCmdSubmit, UsbipRetSubmit, command_usbip_ret_submit, pack_usbip_ret_submit,
  unpack_usbip_cmd_submit, field_at, send_usb_control_response,
}

-- The ints of a message one after the other, in network order.
abbrev pub wire_ints : List ℕ → Bytes
wire_ints [] = []
wire_ints (x ∷ xs) = wire 4 x ++ wire_ints xs

abbrev pub header_fields : UsbipHeaderBasic → List ℕ
header_fields h = h.command ∷ h.seqnum ∷ h.devid ∷ h.direction ∷ h.ep ∷ []

-- USBIP_CMD_SUBMIT as a client sends it.
abbrev pub cmd_submit_wire : UsbipCmdSubmit → Bytes
cmd_submit_wire c =
    wire_ints (
      header_fields c.header
      ++ (c.transfer_flags ∷ c.transfer_buffer_length ∷ c.start_frame ∷ c.number_of_packets
          ∷ c.interval ∷ []))
    ++ wire 8 c.setup

-- USBIP_RET_SUBMIT as a client expects it.
abbrev pub ret_submit_wire : UsbipRetSubmit → Bytes
ret_submit_wire r =
    wire_ints (
      header_fields r.header
      ++ (r.status ∷ r.actual_length ∷ r.start_frame ∷ r.number_of_packets ∷ r.error_count ∷ []))
    ++ wire 8 r.setup

-- `PackUsbipRetSubmit` writes exactly the protocol's layout of the reply.
pub pack_usbip_ret_submit-wire : (r : UsbipRetSubmit) → pack_usbip_ret_submit r ≡ ret_submit_wire r
unfolding pack_usbip_ret_submit
pack_usbip_ret_submit-wire r = simp (mem-swap, append_assoc, append-nil)

-- A packed reply has 48 bytes, whatever its fields hold.
pub length-pack_usbip_ret_submit : (r : UsbipRetSubmit) → length (pack_usbip_ret_submit r) ≡ 48
length-pack_usbip_ret_submit r =
    rw (pack_usbip_ret_submit-wire r) (simp (length-append, length-wire))

pub record IsCmdSubmit (c : UsbipCmdSubmit) : Type 0 where
  pub command : c.header.command < 2 ^ 32
  pub seqnum : c.header.seqnum < 2 ^ 32
  pub devid : c.header.devid < 2 ^ 32
  pub direction : c.header.direction < 2 ^ 32
  pub ep : c.header.ep < 2 ^ 32
  pub transfer_flags : c.transfer_flags < 2 ^ 32
  pub transfer_buffer_length : c.transfer_buffer_length < 2 ^ 32
  pub start_frame : c.start_frame < 2 ^ 32
  pub number_of_packets : c.number_of_packets < 2 ^ 32
  pub interval : c.interval < 2 ^ 32
  pub setup : c.setup < 2 ^ 64

wire_ints-append : (xs ys : List ℕ) → wire_ints (xs ++ ys) ≡ wire_ints xs ++ wire_ints ys
wire_ints-append [] ys = refl
wire_ints-append (x ∷ xs) ys =
    rw (wire_ints-append xs ys) (sym (append_assoc (wire 4 x) (wire_ints xs) (wire_ints ys)))

-- The field of `k` bytes behind `front`.
field_behind :
    (k x off : ℕ) (front rest : Bytes)
    → length front ≡ off
    → x < 256 ^ k
    → swap k (field_at k off (front ++ (wire k x ++ rest))) ≡ x
unfolding field_at
field_behind k x off front rest e h =
    let read : take k (wire k x ++ rest) ≡ wire k x =
      subst (λ n. take n (wire k x ++ rest) ≡ wire k x) (length-wire k x)
        (take-length (wire k x) rest) in
    rw (← e, drop-length front (wire k x ++ rest), read) (swap-load-wire k x h)

-- The int behind some others.
int_behind :
    (xs : List ℕ) (x : ℕ) (ys : List ℕ) (tail : Bytes)
    → x < 2 ^ 32
    → swap 4 (field_at 4 (length (wire_ints xs)) (wire_ints (xs ++ (x ∷ ys)) ++ tail)) ≡ x
int_behind xs x ys tail h = rw (wire_ints-append xs (x ∷ ys)) (
    simp append_assoc (
      field_behind 4 x (length (wire_ints xs)) (wire_ints xs) (wire_ints ys ++ tail) refl
        (omega arith)))

unpack_fields :
    (buf : SmartBuffer) (c : UsbipCmdSubmit)
    → 48 ≤ length buf
    → swap 4 (field_at 4 0 buf) ≡ c.header.command
    → swap 4 (field_at 4 4 buf) ≡ c.header.seqnum
    → swap 4 (field_at 4 8 buf) ≡ c.header.devid
    → swap 4 (field_at 4 12 buf) ≡ c.header.direction
    → swap 4 (field_at 4 16 buf) ≡ c.header.ep
    → swap 4 (field_at 4 20 buf) ≡ c.transfer_flags
    → swap 4 (field_at 4 24 buf) ≡ c.transfer_buffer_length
    → swap 4 (field_at 4 28 buf) ≡ c.start_frame
    → swap 4 (field_at 4 32 buf) ≡ c.number_of_packets
    → swap 4 (field_at 4 36 buf) ≡ c.interval
    → swap 8 (field_at 8 40 buf) ≡ c.setup
    → unpack_usbip_cmd_submit buf ≡ ok (c, drop 48 buf)
unfolding unpack_usbip_cmd_submit
unpack_fields buf c h e0 e1 e2 e3 e4 e5 e6 e7 e8 e9 e10 =
    rw (le→leb 48 (length buf) h, erase_front buf 48 h) (cc)

abbrev cmd_ints : UsbipCmdSubmit → List ℕ
cmd_ints c =
    header_fields c.header
    ++ (c.transfer_flags ∷ c.transfer_buffer_length ∷ c.start_frame ∷ c.number_of_packets
        ∷ c.interval ∷ [])

length-wire_ints : (xs : List ℕ) → length (wire_ints xs) ≡ 4 * length xs
length-wire_ints [] = refl
length-wire_ints (x ∷ xs) =
    omega (arith, length-append (wire 4 x) (wire_ints xs), length-wire 4 x, length-wire_ints xs)

length-cmd_submit_wire : (c : UsbipCmdSubmit) → length (cmd_submit_wire c) ≡ 48
length-cmd_submit_wire c =
    length-append (wire_ints (cmd_ints c)) (wire 8 c.setup)
    ∙ omega (arith, length-wire_ints (cmd_ints c), length-wire 8 c.setup)

setup_behind :
    (c : UsbipCmdSubmit) (rest : Bytes)
    → c.setup < 2 ^ 64
    → swap 8 (field_at 8 40 (wire_ints (cmd_ints c) ++ (wire 8 c.setup ++ rest))) ≡ c.setup
setup_behind c rest h =
    field_behind 8 c.setup 40 (wire_ints (cmd_ints c)) rest (length-wire_ints (cmd_ints c))
      (omega arith)

unpack_wire :
    (c : UsbipCmdSubmit) (tail : Bytes)
    → IsCmdSubmit c
    → 8 ≤ length tail
    → swap 8 (field_at 8 40 (wire_ints (cmd_ints c) ++ tail)) ≡ c.setup
    → unpack_usbip_cmd_submit (wire_ints (cmd_ints c) ++ tail)
      ≡ ok (c, drop 48 (wire_ints (cmd_ints c) ++ tail))
unfolding wire mem
unpack_wire c tail v h s =
    unpack_fields (wire_ints (cmd_ints c) ++ tail) c
      (omega (arith, length-append (wire_ints (cmd_ints c)) tail, length-wire_ints (cmd_ints c)))
      (int_behind ([]) c.header.command
        (c.header.seqnum ∷ c.header.devid ∷ c.header.direction ∷ c.header.ep ∷ c.transfer_flags
          ∷ c.transfer_buffer_length ∷ c.start_frame ∷ c.number_of_packets ∷ c.interval ∷ [])
        tail v.command)
      (int_behind (c.header.command ∷ []) c.header.seqnum
        (c.header.devid ∷ c.header.direction ∷ c.header.ep ∷ c.transfer_flags
          ∷ c.transfer_buffer_length ∷ c.start_frame ∷ c.number_of_packets ∷ c.interval ∷ [])
        tail v.seqnum)
      (int_behind (c.header.command ∷ c.header.seqnum ∷ []) c.header.devid
        (c.header.direction ∷ c.header.ep ∷ c.transfer_flags ∷ c.transfer_buffer_length
          ∷ c.start_frame ∷ c.number_of_packets ∷ c.interval ∷ [])
        tail v.devid)
      (int_behind (c.header.command ∷ c.header.seqnum ∷ c.header.devid ∷ []) c.header.direction
        (c.header.ep ∷ c.transfer_flags ∷ c.transfer_buffer_length ∷ c.start_frame
          ∷ c.number_of_packets ∷ c.interval ∷ [])
        tail v.direction)
      (int_behind (c.header.command ∷ c.header.seqnum ∷ c.header.devid ∷ c.header.direction ∷ [])
        c.header.ep
        (c.transfer_flags ∷ c.transfer_buffer_length ∷ c.start_frame ∷ c.number_of_packets
          ∷ c.interval ∷ [])
        tail v.ep)
      (int_behind
        (c.header.command ∷ c.header.seqnum ∷ c.header.devid ∷ c.header.direction ∷ c.header.ep
          ∷ [])
        c.transfer_flags
        (c.transfer_buffer_length ∷ c.start_frame ∷ c.number_of_packets ∷ c.interval ∷ []) tail
        v.transfer_flags)
      (int_behind
        (c.header.command ∷ c.header.seqnum ∷ c.header.devid ∷ c.header.direction ∷ c.header.ep
          ∷ c.transfer_flags ∷ [])
        c.transfer_buffer_length (c.start_frame ∷ c.number_of_packets ∷ c.interval ∷ []) tail
        v.transfer_buffer_length)
      (int_behind
        (c.header.command ∷ c.header.seqnum ∷ c.header.devid ∷ c.header.direction ∷ c.header.ep
          ∷ c.transfer_flags ∷ c.transfer_buffer_length ∷ [])
        c.start_frame (c.number_of_packets ∷ c.interval ∷ []) tail v.start_frame)
      (int_behind
        (c.header.command ∷ c.header.seqnum ∷ c.header.devid ∷ c.header.direction ∷ c.header.ep
          ∷ c.transfer_flags ∷ c.transfer_buffer_length ∷ c.start_frame ∷ [])
        c.number_of_packets (c.interval ∷ []) tail v.number_of_packets)
      (int_behind
        (c.header.command ∷ c.header.seqnum ∷ c.header.devid ∷ c.header.direction ∷ c.header.ep
          ∷ c.transfer_flags ∷ c.transfer_buffer_length ∷ c.start_frame ∷ c.number_of_packets ∷ [])
        c.interval ([]) tail v.interval)
      s

-- `UnpackUsbipCmdSubmit` reads back every submit request that a client can send, and leaves in the
-- buffer whatever follows it.
pub unpack_usbip_cmd_submit-wire :
    (c : UsbipCmdSubmit) (rest : Bytes)
    → IsCmdSubmit c
    → unpack_usbip_cmd_submit (cmd_submit_wire c ++ rest) ≡ ok (c, rest)
unpack_usbip_cmd_submit-wire c rest v =
    let dropped : drop 48 (cmd_submit_wire c ++ rest) ≡ rest =
      subst (λ n. drop n (cmd_submit_wire c ++ rest) ≡ rest) (length-cmd_submit_wire c)
        (drop-length (cmd_submit_wire c) rest) in
    let assoc = append_assoc (wire_ints (cmd_ints c)) (wire 8 c.setup) rest in
    let read =
      unpack_wire c (wire 8 c.setup ++ rest) v
        (omega (arith, length-append (wire 8 c.setup) rest, length-wire 8 c.setup))
        (setup_behind c rest v.setup) in
    ap unpack_usbip_cmd_submit assoc
    ∙ read
    ∙ ap (λ r. ok (c, r)) (ap (drop 48) (sym assoc) ∙ dropped)

-- A buffer that is too short for a request ends the process by a CHECK.
pub unpack_usbip_cmd_submit_short :
    (buf : SmartBuffer) → length buf < 48 → unpack_usbip_cmd_submit buf ≡ err check_failed
unfolding unpack_usbip_cmd_submit
unpack_usbip_cmd_submit_short buf h = ground arith

-- The reply to a control request answers that request: it carries its sequence number, device,
-- direction and endpoint, the status 0, and the byte count of the data that follows.
pub send_usb_control_response-wire :
    (c : UsbipCmdSubmit) (bytes : Bytes)
    → length bytes < 2 ^ 32
    → send_usb_control_response c bytes
      ≡ ret_submit_wire (record {
        header = record c.header { command = command_usbip_ret_submit };
        status = 0;
        actual_length = length bytes;
        start_frame = 0;
        number_of_packets = 0;
        error_count = 0;
        setup = 0;
      })
        ++ bytes
unfolding send_usb_control_response add
send_usb_control_response-wire c [] h = pack_usbip_ret_submit-wire _ ∙ sym (append-nil _)
send_usb_control_response-wire c (b ∷ bs) h =
    let small : suc (length bs) % 2 ^ 32 ≡ suc (length bs) = omega arith in
    rw (lt→ltb 0 (suc (length bs)) (omega arith), pack_usbip_ret_submit-wire, small)
