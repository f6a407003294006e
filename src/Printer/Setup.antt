-- ===== src/Printer/Setup.antt =====
-- The USB SETUP packet of a control request: `CreateUsbControlRequest` and `GetControlType`.
use virtual_usb_printer.Common.{
  ℕ, ◌+◌, ◌*◌, ◌/◌, ◌%◌, ◌^◌, ◌<◌, ◌≡◌, ap, ◌∙◌, [], ◌∷◌, arith, Bytes, IsByte,
}
use native.Mathlib.Nat.{div-div-eq-div-mul}
use virtual_usb_printer.ByteOrder.{wire, load, htons, mem, swap}
use virtual_usb_printer.Usbip.{UsbControlRequest}

-- The byte of `setup` that a mask of eight bits shifted by `shift` keeps; a 64-bit word has no bits
-- above.
abbrev byte_of : ℕ → ℕ → ℕ
byte_of setup shift = setup / 2 ^ shift % 256

unfoldable pub create_usb_control_request : ℕ → UsbControlRequest
create_usb_control_request setup = record {
  bm_request_type = byte_of setup 56;
  b_request = byte_of setup 48;
  w_value0 = byte_of setup 40;
  w_value1 = byte_of setup 32;
  w_index0 = byte_of setup 24;
  w_index1 = byte_of setup 16;
  w_length = htons (setup % 2 ^ 16);
}

-- Bits 5 and 6.
unfoldable pub get_control_type : ℕ → ℕ
get_control_type bm_request_type = bm_request_type / 2 ^ 5 % 4

-- The eight bytes of a SETUP packet in the order of the USB specification, two-byte fields with their
-- low byte first.
unfoldable pub setup_wire : UsbControlRequest → Bytes
setup_wire r =
    r.bm_request_type
    ∷ r.b_request
    ∷ r.w_value0
    ∷ r.w_value1
    ∷ r.w_index0
    ∷ r.w_index1
    ∷ r.w_length % 256
    ∷ r.w_length / 256
    ∷ []

-- Every field is in the range of its type.
pub record IsSetup (r : UsbControlRequest) : Type 0 where
  pub bm_request_type : IsByte r.bm_request_type
  pub b_request : IsByte r.b_request
  pub w_value0 : IsByte r.w_value0
  pub w_value1 : IsByte r.w_value1
  pub w_index0 : IsByte r.w_index0
  pub w_index1 : IsByte r.w_index1
  pub w_length : r.w_length < 2 ^ 16

-- The 64-bit word that the bytes make, the first byte the highest.
abbrev pub word : Bytes → ℕ → ℕ
word [] n = n
word (b ∷ bs) n = word bs (256 * n + b)

w_length_bytes : (n : ℕ) → n < 2 ^ 16 → htons (256 * (n % 256) + n / 256) ≡ n
unfolding swap wire mem load
w_length_bytes n h = omega arith

-- What the word holds from the bit of weight `k` on gives the byte there, and what it holds above.
field :
    (setup k n b : ℕ)
    → setup / k ≡ 256 * n + b
    → b < 256
    → (setup / k % 256 ≡ b) × (setup / (k * 256) ≡ n)
field setup k n b e h = (omega arith, omega (arith, div-div-eq-div-mul setup k 256))

-- The last two bytes.
last_field :
    (n w : ℕ)
    → w < 2 ^ 16
    → ((256 * (256 * n + w % 256) + w / 256) / 2 ^ 16 ≡ n)
      × ((256 * (256 * n + w % 256) + w / 256) % 2 ^ 16 ≡ 256 * (w % 256) + w / 256)
last_field n w h = (omega arith, omega arith)

-- `CreateUsbControlRequest` reads every field of a SETUP packet out of the word that its bytes make in
-- network order.
pub create_usb_control_request-setup_wire :
    (r : UsbControlRequest) → IsSetup r → create_usb_control_request (word (setup_wire r) 0) ≡ r
unfolding create_usb_control_request setup_wire
create_usb_control_request-setup_wire r v =
    let setup = word (setup_wire r) 0 in
    let n0 = 0 + r.bm_request_type in
    let n1 = 256 * n0 + r.b_request in
    let n2 = 256 * n1 + r.w_value0 in
    let n3 = 256 * n2 + r.w_value1 in
    let n4 = 256 * n3 + r.w_index0 in
    let low = last_field (256 * n4 + r.w_index1) r.w_length v.w_length in
    let f5 = field setup (2 ^ 16) n4 r.w_index1 low.0 v.w_index1 in
    let f4 = field setup (2 ^ 24) n3 r.w_index0 f5.1 v.w_index0 in
    let f3 = field setup (2 ^ 32) n2 r.w_value1 f4.1 v.w_value1 in
    let f2 = field setup (2 ^ 40) n1 r.w_value0 f3.1 v.w_value0 in
    let f1 = field setup (2 ^ 48) n0 r.b_request f2.1 v.b_request in
    let f0 : setup / 2 ^ 56 % 256 ≡ r.bm_request_type = omega (arith, f1.1, v.bm_request_type) in
    let len : htons (setup % 2 ^ 16) ≡ r.w_length =
      ap htons low.1 ∙ w_length_bytes r.w_length v.w_length in
    λ i. record {
      bm_request_type = f0 i;
      b_request = (f1.0) i;
      w_value0 = (f2.0) i;
      w_value1 = (f3.0) i;
      w_index0 = (f4.0) i;
      w_index1 = (f5.0) i;
      w_length = len i;
    }
