-- ===== src/Printer/Interface.antt =====
-- `InterfaceManager`, and how an endpoint picks its interface. The flags of a manager of the printer
-- start as false: `std::vector` value-initialises them.
use virtual_usb_printer.Common.{
  ℕ, ◌-◌, ◌/◌, ◌^◌, Bool, true, false, ◌&&◌, Option, none, some, List, [], ◌∷◌, ◌++◌, ltb, length,
  get_elem?, check_failed, undefined, Result, ok, err, ◌>>=◌, ◌>>◌, check,
}
use virtual_usb_printer.SmartBuffer.{SmartBuffer}
use virtual_usb_printer.Http.Request.{HttpRequest}

pub record InterfaceManager : Type 0 where
  pub queue : List SmartBuffer
  pub receiving_message : Bool
  pub receiving_chunked : Bool
  pub request_header : HttpRequest
  pub message : SmartBuffer

abbrev pub new_interface_manager : InterfaceManager
new_interface_manager = record {
  queue = [];
  receiving_message = false;
  receiving_chunked = false;
  request_header = record { method = []; uri = []; headers = [] };
  message = [];
}

unfoldable pub queue_message : SmartBuffer → InterfaceManager → InterfaceManager
queue_message message self = record self { queue = self.queue ++ (message ∷ []) }

unfoldable pub queue_empty : InterfaceManager → Bool
queue_empty self = is_empty self.queue
  where
    is_empty : List SmartBuffer → Bool
    is_empty [] = true
    is_empty (message ∷ queue) = false

unfoldable pub pop_message : InterfaceManager → Result (SmartBuffer × InterfaceManager)
pop_message self = pop_front self self.queue
  where
    pop_front : InterfaceManager → List SmartBuffer → Result (SmartBuffer × InterfaceManager)
    pop_front self [] = err check_failed
    pop_front self (message ∷ queue) = ok (message, record self { queue = queue })

-- The index of the interface that `endpoint` belongs to; `endpoint` is an `int`, so a bit pattern
-- from 2 ^ 31 on is negative.
unfoldable pub interface_index : ℕ → ℕ → Result ℕ
interface_index interfaces endpoint = do
  check (ltb 0 endpoint && ltb endpoint (2 ^ 31))
  let index = (endpoint - 1) / 2
  check (ltb index interfaces)
  ok index

-- `&interface_managers_[index]`
abbrev pub pick : ℕ → Option InterfaceManager → Result (ℕ × InterfaceManager)
pick index none = err undefined
pick index (some im) = ok (index, im)

-- `GetInterfaceManager`: the index too, to write the manager back.
unfoldable pub get_interface_manager : List InterfaceManager → ℕ → Result (ℕ × InterfaceManager)
unfolding interface_index
get_interface_manager managers endpoint = do
  index ← interface_index (length managers) endpoint
  pick index (get_elem? managers index)
