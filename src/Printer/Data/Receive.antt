-- ===== src/Printer/Data/Receive.antt =====
-- A request that arrives in several transfers.
use virtual_usb_printer.Common.{
  ℕ, zero, suc, ◌+◌, ◌<◌, ◌≡◌, refl, ap, subst, ◌∙◌, true, false, Option, none, some, List, [], ◌∷◌,
  ◌++◌, append_assoc, arith, ◌==◌, if◌then◌else◌, length, get_elem?, set, length-append,
  get_elem?-set_self, get_elem?-some, Result, ok, err, ◌>>=◌, bind-eq-ok, Bytes,
}
use virtual_usb_printer.BaseStrings.{BaseStrings}
use virtual_usb_printer.SmartBuffer.{SmartBuffer, add}
use virtual_usb_printer.Http.Request.{HttpRequest, content_length, is_chunked_message, deserialize}
use virtual_usb_printer.Http.Response.{serialize}
use virtual_usb_printer.Printer.Interface.{
  InterfaceManager, queue_message, get_interface_manager, pick, interface_index,
}
use virtual_usb_printer.Printer.Data.{
  EsclService, UsbPrinter, generate_http_response, start_message, is_complete, take_payload,
  queue_http_response, finish_message, handle_part, handle_http_data,
}

pub length-set :
    (managers : List InterfaceManager) (index : ℕ) (new : InterfaceManager)
    → length (set managers index new) ≡ length managers
length-set [] index new = refl
length-set (m ∷ managers) zero new = refl
length-set (m ∷ managers) (suc index) new = ap suc (length-set managers index new)

picked :
    (o : Option InterfaceManager) (i index : ℕ) (im : InterfaceManager)
    → pick i o ≡ ok (index, im)
    → (i ≡ index) × (o ≡ some im)
picked none i index im e = absurd (cc)
picked (some found) i index im e = (cc, cc)

pub get_interface_manager-ok :
    (managers : List InterfaceManager) (ep index : ℕ) (im : InterfaceManager)
    → get_interface_manager managers ep ≡ ok (index, im)
    → (interface_index (length managers) ep ≡ ok index) × (get_elem? managers index ≡ some im)
unfolding get_interface_manager
get_interface_manager-ok managers ep index im e =
    let (i, ei, e1) = bind-eq-ok (interface_index (length managers) ep) _ e in
    let (same, at) = picked (get_elem? managers i) i index im e1 in
    (ei ∙ ap ok same, subst (λ n. get_elem? managers n ≡ some im) same at)

-- A written manager is read back.
pub get_interface_manager-set :
    (managers : List InterfaceManager) (ep index : ℕ) (im new : InterfaceManager)
    → get_interface_manager managers ep ≡ ok (index, im)
    → get_interface_manager (set managers index new) ep ≡ ok (index, new)
unfolding get_interface_manager
get_interface_manager-set managers ep index im new e =
    let (ei, at) = get_interface_manager-ok managers ep index im e in
    let (bound, _) = get_elem?-some managers index at in
    rw (length-set managers index new, ei, get_elem?-set_self managers index new bound) refl

set-set :
    (managers : List InterfaceManager) (index : ℕ) (a b : InterfaceManager)
    → set (set managers index a) index b ≡ set managers index b
set-set [] index a b = refl
set-set (m ∷ managers) zero a b = refl
set-set (m ∷ managers) (suc index) a b = ap (◌∷◌ m) (set-set managers index a b)

abbrev pub with_document : Option Bytes → List Bytes → List Bytes
with_document none documents = documents
with_document (some document) documents = document ∷ documents

abbrev pub joined : List SmartBuffer → Bytes
joined [] = []
joined (part ∷ parts) = part ++ joined parts

-- A manager that receives a message which is not chunked, with these bytes so far.
abbrev pub filling : InterfaceManager → HttpRequest → SmartBuffer → InterfaceManager
filling im request body = record im {
  receiving_message = true;
  receiving_chunked = false;
  request_header = request;
  message = body;
}

module _ {E : Type 0} (base : BaseStrings) (escl : EsclService E) where
  -- The transfers on one endpoint, one after another: the printer behind them, and the documents that
  -- they wrote.
  unfoldable pub handle_transfers :
      UsbPrinter E → ℕ → List SmartBuffer → Result (UsbPrinter E × List Bytes)
  unfolding handle_http_data
  handle_transfers self ep [] = ok (self, [])
  handle_transfers self ep (message ∷ messages) =
      handle_http_data base escl self ep message >>= λ r.
      handle_transfers r.0 ep messages >>= λ rest. ok (rest.0, with_document r.1 rest.1)

  abbrev store : UsbPrinter E → ℕ → InterfaceManager → UsbPrinter E
  store self index im = record self { interface_managers = set self.interface_managers index im }

  -- The response to the request is queued on the interface, which is ready for the next message.
  unfoldable pub answered :
      UsbPrinter E
      → ℕ
      → InterfaceManager
      → HttpRequest
      → SmartBuffer
      → Result (UsbPrinter E × Option Bytes)
  answered self index im request body =
      generate_http_response base escl self request body >>= λ generated. ok (
        record self {
          escl_manager = generated.escl_manager;
          interface_managers = set self.interface_managers index (record im {
            queue = im.queue ++ (serialize generated.response [] ∷ []);
            receiving_message = false;
            receiving_chunked = false;
            request_header = request;
            message = [];
          });
        },
        generated.recorded,
      )

  answered-store :
      (self : UsbPrinter E) (index : ℕ) (im other : InterfaceManager) (request : HttpRequest)
      (body : SmartBuffer)
      → answered (store self index other) index im request body
        ≡ answered self index im request body
  unfolding answered generate_http_response
  answered-store self index im other request body = λ i.
      generate_http_response base escl self request body >>= λ generated. ok (
        record self {
          escl_manager = generated.escl_manager;
          interface_managers =
              set-set self.interface_managers index other
                (record im {
                  queue = im.queue ++ (serialize generated.response [] ∷ []);
                  receiving_message = false;
                  receiving_chunked = false;
                  request_header = request;
                  message = [];
                })
                i;
        },
        generated.recorded,
      )

  -- A transfer that does not complete the message is stored; one that does is answered.
  add_part :
      (self : UsbPrinter E) (ep index : ℕ) (message body part : SmartBuffer)
      (found im : InterfaceManager) (request : HttpRequest)
      → get_interface_manager self.interface_managers ep ≡ ok (index, found)
      → start_message base escl found message ≡ ok (some (filling im request body, part))
      → handle_http_data base escl self ep message ≡ (
          if length (body ++ part) == content_length base request
          then answered self index im request (body ++ part)
          else ok (store self index (filling im request (body ++ part)), none))
  unfolding handle_http_data handle_part add is_complete finish_message take_payload
      queue_http_response queue_message answered
  add_part self ep index message body part found im request e s =
      rw (e, handle_http_data) (rw (s, handle_http_data) (ground arith))

  started :
      (im : InterfaceManager) (first front : SmartBuffer) (request : HttpRequest)
      → im.receiving_message ≡ false
      → im.message ≡ []
      → deserialize base first ≡ ok (some (request, front))
      → is_chunked_message request ≡ false
      → start_message base escl im first ≡ ok (some (filling im request [], front))
  unfolding start_message
  started im first front request idle empty d c =
      rw (idle, start_message)
        (rw (d, start_message)
          (λ i. ok (
            some (
              record im {
                receiving_message = true;
                receiving_chunked = c i;
                request_header = request;
                message = empty i;
              },
              front,
            ))))

  abbrev pub collected : Result (UsbPrinter E × Option Bytes) → Result (UsbPrinter E × List Bytes)
  collected r = r >>= λ x. ok (x.0, with_document x.1 [])

  start_filling :
      (im : InterfaceManager) (request : HttpRequest) (body message : SmartBuffer)
      → start_message base escl (filling im request body) message
        ≡ ok (some (filling im request body, message))
  unfolding start_message
  start_filling im request body message = refl

  no_document :
      (r : Result (UsbPrinter E × List Bytes))
      → (r >>= λ rest. ok (rest.0, with_document none rest.1)) ≡ r
  no_document (ok (self, documents)) = refl
  no_document (err fault) = refl

  -- A transfer that leaves the message incomplete is stored, and the next ones follow.
  store_part :
      (self : UsbPrinter E) (ep index : ℕ) (message body part : SmartBuffer)
      (found im : InterfaceManager) (request : HttpRequest) (messages : List SmartBuffer)
      → get_interface_manager self.interface_managers ep ≡ ok (index, found)
      → start_message base escl found message ≡ ok (some (filling im request body, part))
      → length (body ++ part) < content_length base request
      → handle_transfers self ep (message ∷ messages)
        ≡ handle_transfers (store self index (filling im request (body ++ part))) ep messages
  unfolding handle_transfers
  store_part self ep index message body part found im request messages e s h =
      let stored : handle_http_data base escl self ep message
          ≡ ok (store self index (filling im request (body ++ part)), none) =
        ground (arith, add_part self ep index message body part found im request e s) in
      rw (stored, handle_transfers) (no_document _)

  complete_part :
      (self : UsbPrinter E) (ep index : ℕ) (message body part : SmartBuffer)
      (found im : InterfaceManager) (request : HttpRequest)
      → get_interface_manager self.interface_managers ep ≡ ok (index, found)
      → start_message base escl found message ≡ ok (some (filling im request body, part))
      → length (body ++ part) ≡ content_length base request
      → handle_transfers self ep (message ∷ [])
        ≡ collected (answered self index im request (body ++ part))
  unfolding handle_transfers
  complete_part self ep index message body part found im request e s h =
      let done : handle_http_data base escl self ep message
          ≡ answered self index im request (body ++ part) =
        ground (arith, add_part self ep index message body part found im request e s) in
      ap collected done

  -- The transfers `message`, which brings `part`, and `parts` and `last`.
  message_and_rest :
      (parts : List SmartBuffer) (self : UsbPrinter E) (ep index : ℕ)
      (message body part last : SmartBuffer) (found im : InterfaceManager) (request : HttpRequest)
      → get_interface_manager self.interface_managers ep ≡ ok (index, found)
      → start_message base escl found message ≡ ok (some (filling im request body, part))
      → length (body ++ part) + length (joined parts) < content_length base request
      → length (body ++ part) + length (joined parts) + length last ≡ content_length base request
      → handle_transfers self ep (message ∷ (parts ++ (last ∷ [])))
        ≡ collected (answered self index im request ((body ++ part) ++ (joined parts ++ last)))
  message_and_rest [] self ep index message body part last found im request e s h l =
      let now = filling im request (body ++ part) in
      let back = get_interface_manager-set self.interface_managers ep index found now e in
      store_part self ep index message body part found im request (last ∷ []) e s (omega arith)
      ∙ complete_part (store self index now) ep index last (body ++ part) last now im request back
          (start_filling im request (body ++ part) last)
          (omega (arith, length-append (body ++ part) last))
      ∙ ap collected (answered-store self index im now request ((body ++ part) ++ last))
  message_and_rest (p ∷ ps) self ep index message body part last found im request e s h l =
      let now = filling im request (body ++ part) in
      let back = get_interface_manager-set self.interface_managers ep index found now e in
      let sizes = length-append p (joined ps) in
      let own = length-append (body ++ part) p in
      store_part self ep index message body part found im request (p ∷ (ps ++ (last ∷ []))) e s
        (omega arith)
      ∙ message_and_rest ps (store self index now) ep index p (body ++ part) p last now im request
          back (start_filling im request (body ++ part) p) (omega arith) (omega arith)
      ∙ ap collected (answered-store self index im now request _)
      ∙ ap (λ b. collected (answered self index im request b)) (simp append_assoc)

  -- A request whose length is announced, in a first transfer that an idle interface takes for its head and
  -- the front of its body, and further ones that reach the announced length with the last of them and not
  -- before: it is answered once, with its whole body, and the interface is idle again.
  pub handle_transfers_lem :
      (self : UsbPrinter E) (ep index : ℕ) (first front last : SmartBuffer)
      (parts : List SmartBuffer) (im : InterfaceManager) (request : HttpRequest)
      → get_interface_manager self.interface_managers ep ≡ ok (index, im)
      → im.receiving_message ≡ false
      → im.message ≡ []
      → deserialize base first ≡ ok (some (request, front))
      → is_chunked_message request ≡ false
      → length front + length (joined parts) < content_length base request
      → length front + length (joined parts) + length last ≡ content_length base request
      → handle_transfers self ep (first ∷ (parts ++ (last ∷ [])))
        ≡ collected (answered self index im request (front ++ (joined parts ++ last)))
  handle_transfers_lem self ep index first front last parts im request e idle empty d c h l =
      message_and_rest parts self ep index first [] front last im im request e
        (started im first front request idle empty d c) h l
