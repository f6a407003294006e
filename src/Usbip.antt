-- ===== src/Usbip.antt =====
-- usbip.h and usbip.cc: the URB messages of the USB/IP protocol. An `int` field is its bit pattern,
-- below 2 ^ 32. The functions that print a message change nothing and are left out.
pub mod Wire
use virtual_usb_printer.Common.{
  ℕ, ◌+◌, ◌%◌, ◌^◌, ◌<◌, List, [], ◌∷◌, ◌++◌, Bytes, Result, ok, ◌>>=◌, ◌>>◌, check, leb, ltb,
  if◌then◌else◌, take, drop, length,
}
use virtual_usb_printer.SmartBuffer.{SmartBuffer, add, erase}
use virtual_usb_printer.ByteOrder.{mem, load, htonl, htobe64}

pub record UsbipHeaderBasic : Type 0 where
  pub command : ℕ
  pub seqnum : ℕ
  pub devid : ℕ
  pub direction : ℕ
  pub ep : ℕ

pub record UsbipCmdSubmit : Type 0 where
  pub header : UsbipHeaderBasic
  pub transfer_flags : ℕ
  pub transfer_buffer_length : ℕ
  pub start_frame : ℕ
  pub number_of_packets : ℕ
  pub interval : ℕ
  pub setup : ℕ

pub record UsbipRetSubmit : Type 0 where
  pub header : UsbipHeaderBasic
  pub status : ℕ
  pub actual_length : ℕ
  pub start_frame : ℕ
  pub number_of_packets : ℕ
  pub error_count : ℕ
  pub setup : ℕ

-- A USB SETUP packet.
pub record UsbControlRequest : Type 0 where
  pub bm_request_type : ℕ
  pub b_request : ℕ
  pub w_value0 : ℕ
  pub w_value1 : ℕ
  pub w_index0 : ℕ
  pub w_index1 : ℕ
  pub w_length : ℕ

-- `COMMAND_USBIP_*` of usbip_constants.h.
abbrev pub command_usbip_cmd_submit : ℕ
command_usbip_cmd_submit = 0x0001

abbrev pub command_usbip_cmd_unlink : ℕ
command_usbip_cmd_unlink = 0x0002

abbrev pub command_usbip_ret_submit : ℕ
command_usbip_ret_submit = 0x0003

-- `serialized.Add(htonl(x))`
abbrev add_int : SmartBuffer → ℕ → SmartBuffer
add_int buf x = add buf (mem 4 (htonl x))

unfoldable pub pack_usbip_ret_submit : UsbipRetSubmit → SmartBuffer
unfolding add
pack_usbip_ret_submit reply =
    let header : SmartBuffer =
      add_int
        (add_int
          (add_int (add_int (add_int [] reply.header.command) reply.header.seqnum)
            reply.header.devid)
          reply.header.direction)
        reply.header.ep in
    let body : SmartBuffer =
      add_int
        (add_int
          (add_int (add_int (add_int header reply.status) reply.actual_length) reply.start_frame)
          reply.number_of_packets)
        reply.error_count in
    add body (mem 8 (htobe64 reply.setup))

-- `sizeof(UsbipCmdSubmit)`: ten `int`s and a `uint64_t`, with no padding.
abbrev pub sizeof_cmd_submit : ℕ
sizeof_cmd_submit = 48

-- The field of `k` bytes at offset `off` after `memcpy(&result, buf->data(), sizeof(result))`.
unfoldable pub field_at : ℕ → ℕ → SmartBuffer → ℕ
field_at k off buf = load (take k (drop off buf))

unfoldable pub unpack_usbip_cmd_submit : SmartBuffer → Result (UsbipCmdSubmit × SmartBuffer)
unfolding field_at
unpack_usbip_cmd_submit buf = do
  check (leb sizeof_cmd_submit (length buf))
  rest ← erase buf 0 sizeof_cmd_submit
  ok (
    record {
      header = record {
        command = htonl (field_at 4 0 buf);
        seqnum = htonl (field_at 4 4 buf);
        devid = htonl (field_at 4 8 buf);
        direction = htonl (field_at 4 12 buf);
        ep = htonl (field_at 4 16 buf);
      };
      transfer_flags = htonl (field_at 4 20 buf);
      transfer_buffer_length = htonl (field_at 4 24 buf);
      start_frame = htonl (field_at 4 28 buf);
      number_of_packets = htonl (field_at 4 32 buf);
      interval = htonl (field_at 4 36 buf);
      setup = htobe64 (field_at 8 40 buf);
    },
    rest,
  )

unfoldable pub create_usbip_ret_submit : UsbipCmdSubmit → UsbipRetSubmit
create_usbip_ret_submit request = record {
  header = record {
    command = command_usbip_ret_submit;
    seqnum = request.header.seqnum;
    devid = request.header.devid;
    direction = request.header.direction;
    ep = request.header.ep;
  };
  status = 0;
  actual_length = 0;
  start_frame = 0;
  number_of_packets = 0;
  error_count = 0;
  setup = 0;
}

-- A `size_t` assigned to an `int`.
abbrev pub to_int : ℕ → ℕ
to_int n = n % 2 ^ 32

-- What `SendUsbDataResponse` hands to `SendBuffer`.
unfoldable pub send_usb_data_response : UsbipCmdSubmit → ℕ → SmartBuffer
unfolding create_usbip_ret_submit
send_usb_data_response usb_request received =
    pack_usbip_ret_submit
      (record (create_usbip_ret_submit usb_request) { actual_length = to_int received })

-- What `SendUsbControlResponse` hands to `SendBuffer`; `data` and `data_size` are one list.
unfoldable pub send_usb_control_response : UsbipCmdSubmit → Bytes → SmartBuffer
unfolding create_usbip_ret_submit
send_usb_control_response usb_request bytes =
    let packed : SmartBuffer =
      pack_usbip_ret_submit
        (record (create_usbip_ret_submit usb_request) { actual_length = to_int (length bytes) }) in
    if ltb 0 (length bytes) then add packed bytes else packed
