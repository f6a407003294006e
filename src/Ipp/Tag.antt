-- ===== src/Ipp/Tag.antt =====
-- `IppTag` of cups_constants.h, and `GetIppTag`.
use virtual_usb_printer.Common.{ℕ}

pub data IppTag : Type 0 where
  zero_tag operation job end printer unsupported_group subscription event_notification : IppTag
  resource document unsupported_value default unknown no_value not_settable delete_attr : IppTag
  admin_define integer boolean enum string date resolution range begin_collection text_lang : IppTag
  name_lang end_collection text name reserved_string keyword uri uri_scheme charset : IppTag
  language mime_type member_name : IppTag

-- `static_cast<uint8_t>(tag)`
unfoldable pub tag_value : IppTag → ℕ
tag_value zero_tag = 0x00
tag_value operation = 0x01
tag_value job = 0x02
tag_value end = 0x03
tag_value printer = 0x04
tag_value unsupported_group = 0x05
tag_value subscription = 0x06
tag_value event_notification = 0x07
tag_value resource = 0x08
tag_value document = 0x09
tag_value unsupported_value = 0x10
tag_value default = 0x11
tag_value unknown = 0x12
tag_value no_value = 0x13
tag_value not_settable = 0x15
tag_value delete_attr = 0x16
tag_value admin_define = 0x17
tag_value integer = 0x21
tag_value boolean = 0x22
tag_value enum = 0x23
tag_value string = 0x30
tag_value date = 0x31
tag_value resolution = 0x32
tag_value range = 0x33
tag_value begin_collection = 0x34
tag_value text_lang = 0x35
tag_value name_lang = 0x36
tag_value end_collection = 0x37
tag_value text = 0x41
tag_value name = 0x42
tag_value reserved_string = 0x43
tag_value keyword = 0x44
tag_value uri = 0x45
tag_value uri_scheme = 0x46
tag_value charset = 0x47
tag_value language = 0x48
tag_value mime_type = 0x49
tag_value member_name = 0x4A
