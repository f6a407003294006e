-- ===== src/Server/Socket.antt =====
-- `recv` and `ReceiveBuffer`. What a host sends on a connection before it closes it is a list of segments,
-- none of them empty; a call of `recv` gets at most what is left of the first one. A `recv` that fails is
-- left out.
use virtual_usb_printer.Common.{
  ℕ, zero, suc, ◌-◌, min, List, [], ◌∷◌, ◌++◌, leb, ◌==◌, if◌then◌else◌, length, take, drop,
  out_of_fuel, Result, ok, err, ◌>>◌, check, Bytes,
}
use virtual_usb_printer.SmartBuffer.{SmartBuffer}

-- The bytes received by a call for at most `n`, and the segments left. No bytes: the connection is closed.
unfoldable pub recv : ℕ → List Bytes → Bytes × List Bytes
recv n [] = ([], [])
recv n (s ∷ ss) = if leb (length s) n then (s, ss) else (take n s, drop n s ∷ ss)

-- The loop, by rounds, with `remaining` bytes to receive. A closed connection gives the empty buffer.
unfoldable pub receive_loop : ℕ → ℕ → SmartBuffer → List Bytes → Result (SmartBuffer × List Bytes)
unfolding recv
receive_loop fuel zero buf incoming = ok (buf, incoming)
receive_loop zero (suc remaining) buf incoming = err out_of_fuel
receive_loop (suc fuel) (suc remaining) buf incoming =
    let received = recv (min (suc remaining) 512) incoming in
    let rest =
      receive_loop fuel (suc remaining - length (received.0)) (buf ++ received.0) (received.1) in
    if length (received.0) == 0
    then ok ([], received.1)
    else (check (leb (length (received.0)) (suc remaining)) >> rest)

-- A round receives a byte at least, or is the last.
unfoldable pub receive_buffer : ℕ → List Bytes → Result (SmartBuffer × List Bytes)
unfolding receive_loop
receive_buffer size incoming = receive_loop (suc size) size [] incoming
