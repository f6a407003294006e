-- ===== src/Printer/Bulk/Pieces.antt =====
-- What a host reads by bulk-in requests.
use virtual_usb_printer.Common.{
  ℕ, ◌+◌, ◌≤◌, ◌<◌, min, ◌≡◌, refl, ap, subst, ◌∙◌, List, [], ◌∷◌, ◌++◌, append-nil, arith, ltb,
  if◌then◌else◌, length, take, drop, take-append-drop, length-drop, drop-length, take_all, Result,
  ok, ◌>>=◌, Bytes,
}
use virtual_usb_printer.SmartBuffer.{SmartBuffer, add, add_from, shrink}
use virtual_usb_printer.Usbip.{UsbipCmdSubmit, pack_usbip_ret_submit, send_usb_control_response}
use virtual_usb_printer.Usbip.Wire.{length-pack_usbip_ret_submit}
use virtual_usb_printer.Printer.Interface.{
  InterfaceManager, queue_message, queue_empty, pop_message,
}
use virtual_usb_printer.Printer.Bulk.{bulk_in, bulk_in_header, send_piece, to_size_t}

-- The size that a request asks for.
abbrev pub asked : UsbipCmdSubmit → ℕ
asked c = to_size_t c.transfer_buffer_length

-- The queue behind a request that found `message` in front of it.
unfoldable pub rest_of_queue : ℕ → SmartBuffer → List SmartBuffer → List SmartBuffer
rest_of_queue size message queue =
    if ltb size (length message) then queue ++ (drop size message ∷ []) else queue

send_piece_lem :
    (c : UsbipCmdSubmit) (im : InterfaceManager) (message : SmartBuffer)
    → send_piece c message im
      ≡ ok (
        pack_usbip_ret_submit (bulk_in_header c (min (asked c) (length message)))
            ++ take (asked c) message,
        record im { queue = rest_of_queue (asked c) message im.queue },
      )
unfolding send_piece queue_message add add_from shrink rest_of_queue
send_piece_lem c im message = ground (arith, take_all (asked c) message)

-- A bulk-in request on an interface with queued responses sends the head and the first bytes of the one
-- in front, as many as it asks for or there are, and `actual_length` says how many. What is left of
-- the response goes to the end of the queue, behind the others.
pub bulk_in_lem :
    (c : UsbipCmdSubmit) (im : InterfaceManager) (message : SmartBuffer) (queue : List SmartBuffer)
    → im.queue ≡ message ∷ queue
    → bulk_in c im
      ≡ ok (
        pack_usbip_ret_submit (bulk_in_header c (min (asked c) (length message)))
            ++ take (asked c) message,
        record im { queue = rest_of_queue (asked c) message queue },
      )
unfolding bulk_in queue_empty pop_message
bulk_in_lem c im message queue e =
    rw (e, bulk_in) (send_piece_lem c (record im { queue = queue }) message)

-- A bulk-in request on an interface with nothing queued is answered with an empty reply.
pub bulk_in_empty :
    (c : UsbipCmdSubmit) (im : InterfaceManager)
    → im.queue ≡ []
    → bulk_in c im ≡ ok (send_usb_control_response c [], im)
unfolding bulk_in queue_empty
bulk_in_empty c im e = rw (e, bulk_in) refl

-- Reads by the requests, one after another: the pieces sent, and the manager behind them.
unfoldable pub bulk_reads :
    List UsbipCmdSubmit → InterfaceManager → Result (List Bytes × InterfaceManager)
unfolding bulk_in
bulk_reads [] im = ok ([], im)
bulk_reads (c ∷ cs) im =
    bulk_in c im >>= λ r. bulk_reads cs r.1 >>= λ rest. ok (r.0 ∷ rest.0, rest.1)

-- What follows the head of each message.
abbrev pub payloads : List Bytes → Bytes
payloads [] = []
payloads (piece ∷ pieces) = drop 48 piece ++ payloads pieces

abbrev pub sum_asked : List UsbipCmdSubmit → ℕ
sum_asked [] = 0
sum_asked (c ∷ cs) = asked c + sum_asked cs

pub payload_of_piece :
    (c : UsbipCmdSubmit) (n : ℕ) (bytes : Bytes)
    → drop 48 (pack_usbip_ret_submit (bulk_in_header c n) ++ bytes) ≡ bytes
payload_of_piece c n bytes =
    subst (λ k. drop k (pack_usbip_ret_submit (bulk_in_header c n) ++ bytes) ≡ bytes)
      (length-pack_usbip_ret_submit (bulk_in_header c n))
      (drop-length (pack_usbip_ret_submit (bulk_in_header c n)) bytes)

abbrev piece : UsbipCmdSubmit → SmartBuffer → Bytes
piece c message =
    pack_usbip_ret_submit (bulk_in_header c (min (asked c) (length message)))
    ++ take (asked c) message

rest_of_one :
    (size : ℕ) (message : SmartBuffer)
    → rest_of_queue size message []
      ≡ (if ltb size (length message) then drop size message ∷ [] else [])
unfolding rest_of_queue
rest_of_one size message = refl

bulk_in_part :
    (c : UsbipCmdSubmit) (im : InterfaceManager) (message : SmartBuffer)
    → im.queue ≡ message ∷ []
    → asked c < length message
    → bulk_in c im ≡ ok (piece c message, record im { queue = drop (asked c) message ∷ [] })
bulk_in_part c im message e h =
    bulk_in_lem c im message [] e
    ∙ ap (λ q. ok (piece c message, record im { queue = q }))
        (ground (arith, rest_of_one (asked c) message))

bulk_in_whole :
    (c : UsbipCmdSubmit) (im : InterfaceManager) (message : SmartBuffer)
    → im.queue ≡ message ∷ []
    → length message ≤ asked c
    → bulk_in c im ≡ ok (piece c message, record im { queue = [] })
bulk_in_whole c im message e h =
    bulk_in_lem c im message [] e
    ∙ ap (λ q. ok (piece c message, record im { queue = q }))
        (ground (arith, rest_of_one (asked c) message))

-- The pieces of one response, asked for in sizes that reach the end of it with the last request and not
-- before, are the response, and leave the queue empty.
pub bulk_reads_lem :
    (cs : List UsbipCmdSubmit) (last : UsbipCmdSubmit) (im : InterfaceManager)
    (message : SmartBuffer)
    → im.queue ≡ message ∷ []
    → sum_asked cs < length message
    → length message ≤ sum_asked cs + asked last
    → (pieces : List Bytes) × (bulk_reads (cs ++ (last ∷ [])) im
        ≡ ok (pieces, record im { queue = [] }))
      × (payloads pieces ≡ message)
unfolding bulk_reads
bulk_reads_lem [] last im message e h l = (
  piece last message ∷ [],
  rw (bulk_in_whole last im message e (omega arith)) refl,
  append-nil (drop 48 (piece last message))
      ∙ payload_of_piece last (min (asked last) (length message)) (take (asked last) message)
      ∙ take_all (asked last) message (omega arith),
)
bulk_reads_lem (c ∷ cs) last im message e h l =
    let size = length-drop (asked c) message in
    let (pieces, r, p) =
      bulk_reads_lem cs last (record im { queue = drop (asked c) message ∷ [] })
        (drop (asked c) message) refl (omega (arith, size)) (omega (arith, size)) in
    (
      piece c message ∷ pieces,
      rw (bulk_in_part c im message e (omega arith)) (rw r refl),
      ap (λ front. front ++ payloads pieces)
            (payload_of_piece c (min (asked c) (length message)) (take (asked c) message))
          ∙ ap (◌++◌ (take (asked c) message)) p
          ∙ take-append-drop (asked c) message,
    )
