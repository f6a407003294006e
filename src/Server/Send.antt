-- ===== src/Server/Send.antt =====
-- `SendBuffer`. What a call of `send` accepts is the kernel's choice, a parameter: of the bytes that a call
-- is offered some number, or none at all where it fails.
pub mod Sent
use virtual_usb_printer.Common.{
  ℕ, zero, suc, ◌+◌, ◌-◌, min, Option, none, some, [], ◌++◌, leb, length, take, drop, check_failed,
  out_of_fuel, Result, ok, err, ◌>>=◌, ◌>>◌, check, Bytes,
}
use virtual_usb_printer.SmartBuffer.{SmartBuffer}

-- `CHECK_GE(sent, 0)`
succeeded : Option ℕ → Result ℕ
succeeded none = err check_failed
succeeded (some sent) = ok sent

-- `send` is given the number of the call and the bytes that it is offered.
module _ (send : ℕ → Bytes → Option ℕ) (smart_buffer : SmartBuffer) where
  -- The loop, by rounds; `wire` is what has been accepted.
  unfoldable pub send_loop : ℕ → ℕ → ℕ → ℕ → Bytes → Result Bytes
  unfolding succeeded
  send_loop fuel call zero total wire = ok wire
  send_loop zero call (suc remaining) total wire = err out_of_fuel
  send_loop (suc fuel) call (suc remaining) total wire =
      let offered = take (min (suc remaining) 512) (drop total smart_buffer) in
      succeeded (send call offered) >>= λ sent.
      check (leb sent (suc remaining))
      >> send_loop fuel (suc call) (suc remaining - sent) (total + sent) (wire ++ take sent offered)

  -- A call that accepts bytes takes one at least.
  unfoldable pub send_buffer : Result Bytes
  unfolding send_loop
  send_buffer = send_loop (suc (length smart_buffer)) 0 (length smart_buffer) 0 []
