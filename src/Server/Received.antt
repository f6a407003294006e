-- ===== src/Server/Received.antt =====
-- `ReceiveBuffer` does not depend on how the bytes arrive.
use virtual_usb_printer.Common.{
  ℕ, zero, suc, ◌-◌, ◌≤◌, ◌<◌, min, ◌≡◌, refl, sym, ap, ◌∙◌, inl, inr, List, [], ◌∷◌, ◌++◌,
  append-nil, append_assoc, arith, leb, Bool-cases, length, take, drop, All, length-append,
  take-append-drop, length-take, length-drop, ok, Bytes,
}
use virtual_usb_printer.SmartBuffer.{SmartBuffer}
use virtual_usb_printer.Server.Socket.{recv, receive_loop, receive_buffer}

abbrev pub joined : List Bytes → Bytes
joined [] = []
joined (s ∷ ss) = s ++ joined ss

abbrev pub IsNonempty : Bytes → Type 0
IsNonempty s = 0 < length s

-- The first bytes as one piece behind `buf`, and the others in segments; nothing at all where the host
-- closes the connection too early.
unfoldable pub IsReceived : ℕ → SmartBuffer → List Bytes → SmartBuffer × List Bytes → Type 0
IsReceived size buf incoming r =
    (size ≤ length (joined incoming)
      → (r.0 ≡ buf ++ take size (joined incoming))
        × (joined (r.1) ≡ drop size (joined incoming))
        × All IsNonempty (r.1))
    × (length (joined incoming) < size → (r.0 ≡ []) × (r.1 ≡ []))

take-past :
    (front rest : Bytes) (n : ℕ)
    → length front ≤ n
    → (take n (front ++ rest) ≡ front ++ take (n - length front) rest)
      × (drop n (front ++ rest) ≡ drop (n - length front) rest)
take-past [] rest n h = let e : n - 0 ≡ n = omega arith in rw e (refl, refl)
take-past (b ∷ front) rest zero h = absurd (omega arith)
take-past (b ∷ front) rest (suc n) h =
    let (t, d) = take-past front rest n (omega arith) in
    let e : suc n - suc (length front) ≡ n - length front = omega arith in rw e (ap (◌∷◌ b) t, d)

-- A piece that was got before the rest is received.
got_before :
    (size : ℕ) (buf got : SmartBuffer) (incoming left : List Bytes) (r : SmartBuffer × List Bytes)
    → got ++ joined left ≡ joined incoming
    → length got ≤ size
    → IsReceived (size - length got) (buf ++ got) left r
    → IsReceived size buf incoming r
unfolding IsReceived
got_before size buf got incoming left r split h p =
    let total = length-append got (joined left) in
    let (t, d) = take-past got (joined left) size h in
    (
      (λ enough.
          let (a, b, c) = p.0 (omega (arith, total, ap length split)) in
          (
            a
                ∙ append_assoc buf got (take (size - length got) (joined left))
                ∙ ap (◌++◌ buf) (sym t ∙ ap (take size) split),
            b ∙ sym d ∙ ap (drop size) split,
            c,
          )),
      (λ short. p.1 (omega (arith, total, ap length split))),
    )

-- A call gets the front of what is there, a byte of it at least.
recv_lem :
    (n : ℕ) (incoming : List Bytes)
    → 0 < n
    → 0 < length (joined incoming)
    → All IsNonempty incoming
    → (0 < length ((recv n incoming).0))
      × (length ((recv n incoming).0) ≤ n)
      × ((recv n incoming).0 ++ joined ((recv n incoming).1) ≡ joined incoming)
      × All IsNonempty ((recv n incoming).1)
unfolding recv
recv_lem n [] h l v = absurd (omega arith)
recv_lem n (s ∷ ss) h l v = elim (Bool-cases (leb (length s) n)) [
  | inl fits ↦ rw (fits, recv) (v.0, ground arith, refl, v.1)
  | inr longer ↦
      let size = length-take n s in
      let left = length-drop n s in
      rw (longer, recv)
        (
          ground (arith, size),
          ground (arith, size),
          sym (append_assoc (take n s) (drop n s) (joined ss))
              ∙ ap (λ x. x ++ joined ss) (take-append-drop n s),
          (ground (arith, left), v.1),
        )
]

one_round :
    (fuel size : ℕ) (buf : SmartBuffer) (incoming : List Bytes) (r : SmartBuffer × List Bytes)
    → 0 < length ((recv (min (suc size) 512) incoming).0)
    → length ((recv (min (suc size) 512) incoming).0) ≤ suc size
    → receive_loop fuel
        (suc size - length ((recv (min (suc size) 512) incoming).0))
        (buf ++ (recv (min (suc size) 512) incoming).0)
        ((recv (min (suc size) 512) incoming).1)
      ≡ ok r
    → receive_loop (suc fuel) (suc size) buf incoming ≡ ok r
unfolding receive_loop
one_round fuel size buf incoming r h l e = ground (arith, e)

receive_loop_lem :
    (fuel size : ℕ) (buf : SmartBuffer) (incoming : List Bytes)
    → size < fuel
    → All IsNonempty incoming
    → (r : SmartBuffer × List Bytes) × (receive_loop fuel size buf incoming ≡ ok r)
      × IsReceived size buf incoming r
unfolding receive_loop IsReceived recv
receive_loop_lem fuel zero buf incoming h v = (
  (buf, incoming),
  refl,
  ((λ enough. (sym (append-nil buf), refl, v)), (λ short. absurd (omega arith))),
)
receive_loop_lem zero (suc size) buf incoming h v = absurd (omega arith)
receive_loop_lem (suc fuel) (suc size) buf [] h v =
    (([], []), refl, ((λ enough. absurd (omega arith)), (λ short. (refl, refl))))
receive_loop_lem (suc fuel) (suc size) buf (s ∷ ss) h v =
    let n = min (suc size) 512 in
    let m = recv n (s ∷ ss) in
    let (some_, few, split, kept) =
      recv_lem n (s ∷ ss) (omega arith) (omega (arith, length-append s (joined ss))) v in
    let (r, e, p) =
      receive_loop_lem fuel (suc size - length (m.0)) (buf ++ m.0) (m.1) (omega arith) kept in
    (
      r,
      one_round fuel size buf (s ∷ ss) r some_ (omega arith) e,
      got_before (suc size) buf (m.0) (s ∷ ss) (m.1) r split (omega arith) p,
    )

-- `ReceiveBuffer` always ends. It gives the first bytes that the host sends, as many as it is asked for,
-- however they arrive, and leaves the others; where the host closes the connection before it has sent so
-- many, it gives the empty buffer, and what had come is lost.
pub receive_buffer_lem :
    (size : ℕ) (incoming : List Bytes)
    → All IsNonempty incoming
    → (r : SmartBuffer × List Bytes) × (receive_buffer size incoming ≡ ok r)
      × IsReceived size [] incoming r
unfolding receive_buffer
receive_buffer_lem size incoming v = receive_loop_lem (suc size) size [] incoming (omega arith) v
