-- ===== src/SmartBuffer.antt =====
-- smart_buffer.h and smart_buffer.cc: the byte buffer that every message is packed into.
-- `buffer_` is the class's only field, so a buffer is its list of bytes. `reserve` changes no content.
pub mod Search
pub mod Edit
use virtual_usb_printer.Common.{
  ℕ, zero, suc, ◌+◌, ◌%◌, ◌^◌, ◌≤◌, Bool, List, [], ◌∷◌, ◌++◌, Option, none, some, Bytes, is_prefix,
  Result, ok, err, undefined, ◌>>=◌, ◌>>◌, require, check, ltb, leb, if◌then◌else◌, length, take,
  drop,
}

abbrev pub SmartBuffer : Type 0
SmartBuffer = Bytes

-- `Add(data, size)`, `Add(string)`, `Add(vector)` and `Add(buf)`: all append the bytes.
unfoldable pub add : SmartBuffer → Bytes → SmartBuffer
add buf bytes = buf ++ bytes

-- `Add(buf, start)`. `contents.begin() + start` must not pass the end.
unfoldable pub add_from : SmartBuffer → SmartBuffer → ℕ → Result SmartBuffer
add_from self buf start = do require (leb start (length buf)) undefined; ok (self ++ drop start buf)

-- `Add(buf, start, len)`. The sum in the CHECK is of `size_t`s; the iterators do not wrap.
unfoldable pub add_range : SmartBuffer → SmartBuffer → ℕ → ℕ → Result SmartBuffer
add_range self buf start len = do
  check (leb ((start + len) % 2 ^ 64) (length buf))
  require (leb (start + len) (length buf)) undefined
  ok (self ++ take len (drop start buf))

-- `Erase(index)`
unfoldable pub erase_at : SmartBuffer → ℕ → Result SmartBuffer
erase_at self index = do
  require (ltb index (length self)) undefined
  ok (take index self ++ drop (suc index) self)

-- `Erase(start, len)`
unfoldable pub erase : SmartBuffer → ℕ → ℕ → Result SmartBuffer
erase self start len = do
  require (leb (start + len) (length self)) undefined
  ok (take start self ++ drop (start + len) self)

unfoldable pub shrink : SmartBuffer → ℕ → SmartBuffer
shrink self size = if leb (length self) size then self else take size self

-- `std::search` over the whole of a list: the offset of the first match.
unfoldable pub search_from : Bytes → Bytes → Option ℕ
search_from target [] = if is_prefix target [] then some 0 else none
search_from target (b ∷ bs) =
    if is_prefix target (b ∷ bs)
    then some 0
    else elim (search_from target bs) [ none ↦ none | some i ↦ some (suc i) ]

-- What `std::search` hands back is the end of the buffer where nothing is found, and `-1` is then
-- returned; so it is for an empty target found at the end. `none` stands for `-1`.
unfoldable pub find_from : SmartBuffer → Bytes → ℕ → Result (Option ℕ)
unfolding search_from is_prefix
find_from self target start = do
  require (leb start (length self)) undefined
  ok (elim (search_from target (drop start self)) [
    | none ↦ none
    | some i ↦ if leb (length self) (start + i) then none else some (start + i)
  ])

-- `FindFirstOccurrence(target)`, with the default `start = 0`, which is what every caller uses.
unfoldable pub find_first_occurrence : SmartBuffer → Bytes → Option ℕ
unfolding search_from is_prefix
find_first_occurrence self target = elim (search_from target self) [
  | none ↦ none
  | some i ↦ if leb (length self) i then none else some i
]
