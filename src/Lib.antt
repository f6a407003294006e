-- ===== src/Lib.antt =====
-- Verification of virtual-usb-printer, a USB printer that lives behind the USB/IP protocol.
--
-- A host attaches the device by the operations of op_commands.cc and then sends URBs (usbip.cc).
-- UsbPrinter (usb_printer.cc) answers control requests out of its descriptors, collects the HTTP
-- requests that arrive by bulk-out transfers on an interface, lets the IPP manager (ipp_manager.cc
-- and ipp_util.cc) or the eSCL manager (escl_manager.cc) make the response, queues it on the
-- interface, and hands it out by bulk-in transfers. All messages are built in a SmartBuffer.
--
--   Common        Shared names and lemmas: lists, Boolean tests, byte strings, and `Result`, the
--                 outcome of code that may end the process (a failed CHECK, exit), access memory
--                 outside an object (`undefined`), or exceed the rounds given to a loop.
--   SmartBuffer   smart_buffer.h, smart_buffer.cc: a buffer is its list of bytes.
--   ByteOrder     Numbers in memory and in network order on a little-endian host.
--   Usbip         usbip.h, usbip.cc: submit requests and their replies.
--   OpCommands    op_commands.h, op_commands.cc: the list and import replies.
--   Descriptors   device_descriptors.h, device_descriptors.cc: the packed structs, their bytes and,
--                 in Equality, their comparisons.
--   Json          base::Value, as data.
--   FlatMap       base::flat_map, by its documented interface.
--   BaseStrings   The string functions of libbase, a parameter of what calls them.
--   Http          http_util.h, http_util.cc: Request (HttpRequest), Response (HttpResponse) and
--                 Chunk (the functions on chunked messages).
--   Ipp           ipp_util.h, ipp_util.cc, cups_constants.h: Header, Parse (the attributes section
--                 of a request), Attribute (values, writers in Add, sizes in Size); Manager is
--                 ipp_manager.cc.
--   Printer       usb_printer.h, usb_printer.cc: Interface (InterfaceManager), Setup and Control
--                 (control requests), Data (HandleHttpData and GenerateHttpResponse), Bulk
--                 (HandleBulkInRequest) and Dispatch (HandleUsbRequest). Exchange composes
--                 them: requests in a row.
--   Escl          escl_manager.h, escl_manager.cc: Config, Uuid, Manager (the scan jobs) and Service
--                 (the manager as the printer calls it). Xml is xml_util.h, xml_util.cc: Write (the
--                 capabilities and the status) and Read (a request for a scan job).
--   Server        server.h, server.cc: Socket (ReceiveBuffer), Send (SendBuffer), Connection (the
--                 operations, the URBs and the loop of a connection) and Run (the set-up of the socket
--                 and the loop over the connections).
--   LoadConfig    load_config.h, load_config.cc: Fields (one descriptor each) and Lists (the lists of
--                 interfaces, endpoints and strings, and CreateUsbDescriptors of main).
--   Startup       virtual_usb_printer.cc, GetJSONContents of value_util.cc: from the flags to the
--                 printer that the server is given.
--   Tests         The theorems at concrete input, and runs.
--
-- State is passed on: an operation takes the state and gives the new one. An `int`, `uint16_t` or
-- `uint64_t` is its bit pattern, a natural number below the power of two; a byte is below 256. A
-- plain `char` is signed, as on x86-64, the target taken for it and for the little-endian memory. What
-- a call prints is left out, what it sends on a socket or writes to a file is part of its result,
-- and what it receives, reads from a file, draws at random or takes from the clock is an argument.
-- An attribute keeps the type and name that its functions look at. A member that a struct does not
-- initialise (of ScanSettings, ScanRegion and ScannerStatus) is an option, `none` until it is
-- assigned, and to read it then is `undefined`.
--
-- libbase and libxml2 are not part of the repository: their string functions (BaseStrings), the JSON
-- reader and files (Startup.Environment) and the parser and printer of XML (Escl.Xml.LibXml) are
-- arguments. JSON values and XML nodes are data.
--
-- Loops over a list are recursions on it. The loops of the IPP parser and of MergeDocument, which
-- step through a buffer, get a bound on their rounds: one more than the buffer has bytes. The IPP
-- loops take at least one byte off in each round. A round of MergeDocument need not, and only then,
-- when it would never end, is its bound exceeded.
--
-- ReceiveBuffer and SendBuffer get a round for each byte that they are to move and one more; the loop
-- of a connection runs for the rounds that it is given. The loop over the connections takes one host
-- after another out of a list.
--
-- Not modelled: the parsing of the command line (virtual_usb_printer.cc), the log and the printing
-- functions of usbip.cc and device_descriptors.cc, which change no state, and GetJSONValue, which only
-- tests call.
pub mod Common
pub mod SmartBuffer
pub mod ByteOrder
pub mod Json
pub mod FlatMap
pub mod BaseStrings
pub mod Http
pub mod Usbip
pub mod Ipp
pub mod Descriptors
pub mod Printer
pub mod Escl
pub mod OpCommands
pub mod Server
pub mod LoadConfig
pub mod Startup
pub mod Tests
