-- ===== src/Ipp/Header.antt =====
-- `IppHeader` of ipp_util.h: `Deserialize` and `Serialize`.
use virtual_usb_printer.Common.{
  ℕ, ◌^◌, ◌≤◌, ◌<◌, ◌≡◌, refl, ◌∙◌, Option, none, some, [], ◌++◌, arith, ltb, if◌then◌else◌, lt→ltb,
  length, take, drop, Result, ok, ◌>>=◌, Bytes,
}
use virtual_usb_printer.SmartBuffer.{SmartBuffer, add, erase}
use virtual_usb_printer.SmartBuffer.Edit.{erase_front}
use virtual_usb_printer.ByteOrder.{
  mem, load, wire, htons, htonl, load-mem, mem-swap, swap-load-wire,
}

-- `operation_id` is the status in a response; `request_id` is an `int`, as its bit pattern.
pub record IppHeader : Type 0 where
  pub major : ℕ
  pub minor : ℕ
  pub operation_id : ℕ
  pub request_id : ℕ

abbrev pub sizeof_ipp_header : ℕ
sizeof_ipp_header = 8

-- `none` is `nullopt`: the message is then left as it is.
unfoldable pub deserialize : SmartBuffer → Result (Option (IppHeader × SmartBuffer))
unfolding load
deserialize message = if ltb (length message) sizeof_ipp_header then ok none else do
  rest ← erase message 0 sizeof_ipp_header
  ok (
      some (
        record {
          major = load (take 1 message);
          minor = load (take 1 (drop 1 message));
          operation_id = htons (load (take 2 (drop 2 message)));
          request_id = htonl (load (take 4 (drop 4 message)));
        },
        rest,
      ))

unfoldable pub serialize : IppHeader → SmartBuffer → SmartBuffer
unfolding add
serialize self buf = add buf (
    mem 1 self.major
    ++ (mem 1 self.minor ++ (mem 2 (htons self.operation_id) ++ mem 4 (htonl self.request_id))))

pub record IsIppHeader (h : IppHeader) : Type 0 where
  pub major : h.major < 256
  pub minor : h.minor < 256
  pub operation_id : h.operation_id < 2 ^ 16
  pub request_id : h.request_id < 2 ^ 32

-- The header as RFC 8010 lays it out.
abbrev pub header_wire : IppHeader → Bytes
header_wire h = wire 1 h.major ++ (wire 1 h.minor ++ (wire 2 h.operation_id ++ wire 4 h.request_id))

pub serialize-header_wire :
    (h : IppHeader) (buf : SmartBuffer) → serialize h buf ≡ buf ++ header_wire h
unfolding serialize
serialize-header_wire h buf =
    rw (mem-swap 2 h.operation_id, mem-swap 4 h.request_id) (unfold wire in refl)

deserialize_long :
    (message : SmartBuffer)
    → 8 ≤ length message
    → deserialize message
      ≡ ok (
          some (
            record {
              major = load (take 1 message);
              minor = load (take 1 (drop 1 message));
              operation_id = htons (load (take 2 (drop 2 message)));
              request_id = htonl (load (take 4 (drop 4 message)));
            },
            drop 8 message,
          ))
unfolding deserialize
deserialize_long message h = ground (arith, erase_front message 8)

pub deserialize-header_wire :
    (h : IppHeader) (rest : Bytes)
    → IsIppHeader h
    → deserialize (header_wire h ++ rest) ≡ ok (some (h, rest))
unfolding wire mem
deserialize-header_wire h rest v = deserialize_long (header_wire h ++ rest) (omega arith) ∙ λ i.
    ok (
      some (
        record {
          major = byte h.major v.major i;
          minor = byte h.minor v.minor i;
          operation_id = swap-load-wire 2 h.operation_id v.operation_id i;
          request_id = swap-load-wire 4 h.request_id v.request_id i;
        },
        rest,
      ))
  where
    byte : (x : ℕ) → x < 256 → load (wire 1 x) ≡ x
    byte x h = load-mem 1 x h

-- `Deserialize` reads back the header that `Serialize` appends to an empty buffer, and leaves what
-- follows it.
pub deserialize-serialize :
    (h : IppHeader) (rest : Bytes)
    → IsIppHeader h
    → deserialize (serialize h [] ++ rest) ≡ ok (some (h, rest))
deserialize-serialize h rest v = rw (serialize-header_wire h []) (deserialize-header_wire h rest v)

-- A message shorter than a header is refused.
pub deserialize_short : (message : SmartBuffer) → length message < 8 → deserialize message ≡ ok none
unfolding deserialize
deserialize_short message h = rw (lt→ltb (length message) 8 h)
