-- ===== src/Server/Send/Sent.antt =====
-- `SendBuffer` sends the whole message, however little a call accepts.
use virtual_usb_printer.Common.{
  ℕ, zero, suc, ◌+◌, ◌-◌, ◌≤◌, ◌<◌, min, ◌≡◌, refl, ap, ◌∙◌, Option, some, [], ◌∷◌, ◌++◌, arith,
  leb, true, length, take, drop, length-take, length-drop, take_all, ok, Bytes,
}
use virtual_usb_printer.SmartBuffer.{SmartBuffer}
use virtual_usb_printer.Server.Send.{send_loop, send_buffer}

-- A call that is offered bytes accepts some of them.
abbrev pub IsSending : (ℕ → Bytes → Option ℕ) → Type 0
IsSending send =
    (call : ℕ) (offered : Bytes)
    → 0 < length offered
    → (sent : ℕ) × (send call offered ≡ some sent) × (0 < sent) × (sent ≤ length offered)

take-take : (sent most : ℕ) (xs : Bytes) → sent ≤ most → take sent (take most xs) ≡ take sent xs
take-take zero most xs h = refl
take-take (suc sent) zero xs h = absurd (omega arith)
take-take (suc sent) (suc most) [] h = refl
take-take (suc sent) (suc most) (x ∷ xs) h = ap (◌∷◌ x) (take-take sent most xs (omega arith))

take-more :
    (total sent : ℕ) (xs : Bytes)
    → take total xs ++ take sent (drop total xs) ≡ take (total + sent) xs
take-more zero sent xs = let e : 0 + sent ≡ sent = omega arith in rw e refl
take-more (suc total) zero [] = let e : suc total + 0 ≡ suc total = omega arith in rw e refl
take-more (suc total) (suc sent) [] =
    let e : suc total + suc sent ≡ suc (total + suc sent) = omega arith in rw e refl
take-more (suc total) sent (x ∷ xs) =
    let e : suc total + sent ≡ suc (total + sent) = omega arith in
    rw e (ap (◌∷◌ x) (take-more total sent xs))

module _ (send : ℕ → Bytes → Option ℕ) (sending : IsSending send) (smart_buffer : SmartBuffer) where
  -- The pieces so far are the front of the message.
  send_loop_lem :
      (fuel call remaining total : ℕ)
      → remaining < fuel
      → total + remaining ≡ length smart_buffer
      → send_loop send smart_buffer fuel call remaining total (take total smart_buffer)
        ≡ ok smart_buffer
  unfolding send_loop
  send_loop_lem fuel call zero total h e = ap ok (take_all total smart_buffer (omega (arith, e)))
  send_loop_lem zero call (suc remaining) total h e = absurd (omega arith)
  send_loop_lem (suc fuel) call (suc remaining) total h e =
      let most = min (suc remaining) 512 in
      let offered = take most (drop total smart_buffer) in
      let size = length-take most (drop total smart_buffer) in
      let left = length-drop total smart_buffer in
      let (sent, accepted, some_, few) = sending call offered (omega (arith, e, size, left)) in
      let fits : leb sent (suc remaining) ≡ true = ground (arith, size) in
      let piece =
        ap (◌++◌ (take total smart_buffer))
          (take-take sent most (drop total smart_buffer) (omega (arith, size)))
        ∙ take-more total sent smart_buffer in
      rw (accepted, fits, piece)
        (send_loop_lem fuel (suc call) (suc remaining - sent) (total + sent) (omega arith)
          (omega (arith, e, size)))

-- `SendBuffer` always ends and hands the whole message to the socket, each byte once and in order, however
-- few bytes a call of `send` accepts, where each call that is offered bytes accepts one at least and no
-- call fails.
pub send_buffer_lem :
    (send : ℕ → Bytes → Option ℕ) (smart_buffer : SmartBuffer)
    → IsSending send
    → send_buffer send smart_buffer ≡ ok smart_buffer
unfolding send_buffer
send_buffer_lem send smart_buffer sending =
    send_loop_lem send sending smart_buffer (suc (length smart_buffer)) 0 (length smart_buffer) 0
      (omega arith) (omega arith)
