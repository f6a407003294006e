-- ===== src/BaseStrings.antt =====
-- The string functions of Chromium's libbase that the program calls. They are no part of this
-- repository: a value of this record stands for them, and a theorem that relies on what they do
-- takes their documented behaviour as a hypothesis.
use virtual_usb_printer.Common.{ℕ, Bool, Option, List, Bytes}

pub record BaseStrings : Type 0 where
  -- `SplitString(s, separators, KEEP_WHITESPACE, SPLIT_WANT_ALL)`
  pub split_string : Bytes → Bytes → List Bytes
  -- `SplitStringUsingSubstr(s, delimiter, KEEP_WHITESPACE, SPLIT_WANT_NONEMPTY)`
  pub split_string_using_substr : Bytes → Bytes → List Bytes
  -- `TrimString(s, trim_chars, TRIM_LEADING)`
  pub trim_string_leading : Bytes → Bytes → Bytes
  -- `StringToSizeT`, `StringToInt` and `HexStringToUInt`: `none` is the result `false`.
  pub string_to_size_t : Bytes → Option ℕ
  pub string_to_int : Bytes → Option ℕ
  pub hex_string_to_uint : Bytes → Option ℕ
  -- `StartsWith(s, prefix, SENSITIVE)`
  pub starts_with : Bytes → Bytes → Bool
