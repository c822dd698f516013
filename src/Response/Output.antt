-- ===== src/Response/Output.antt =====
-- The `std::stringstream` that a response is written to and read from.
use ehttp.Base.{
  ℕ, ◌+◌, Bool, true, false, not, ◌||◌, [], ◌++◌, ℤ, pos, negsuc, if◌then◌else◌, ltb, leb, Bytes,
  length, take, drop, min,
}

pub record OutStream : Type 0 where
  pub buffer : Bytes
  pub at : ℕ
  pub eof : Bool
  pub failed : Bool
  pub count : ℕ

abbrev pub empty_stream : OutStream
empty_stream = record { buffer = []; at = 0; eof = false; failed = false; count = 0 }

abbrev pub good : OutStream → Bool
good s = not (s.eof || s.failed)

-- `s << bytes`: nothing is written to a stream that is not good.
abbrev pub put : Bytes → OutStream → OutStream
put bytes s = if good s then record s { buffer = s.buffer ++ bytes } else s

abbrev pub unread : OutStream → Bytes
unread s = drop s.at s.buffer

-- `s.read(buffer, n)`, with the bytes that it stores.
unfoldable pub read : OutStream → ℕ → Bytes × OutStream
read s n =
    let left = length (unread s) in
    let short = ltb left n in
    if good s
    then (
      take n (unread s),
      record s { at = s.at + min n left; eof = short; failed = short; count = min n left },
    )
    else ([], record s { failed = true; count = 0 })

-- `s.tellg()` is -1 on a stream that has failed.
abbrev pub tellg : OutStream → ℤ
tellg s = if s.failed then negsuc 0 else pos s.at

-- `s.seekg(position)`: `eofbit` goes, and a position outside the buffer fails.
abbrev pub seekg : ℤ → OutStream → OutStream
seekg (pos n) s =
    if s.failed
    then record s { eof = false }
    else if leb n (length s.buffer)
    then record s { at = n; eof = false }
    else record s { eof = false; failed = true }
seekg (negsuc n) s = record s { eof = false; failed = true }

-- `s.clear()`
abbrev pub clear : OutStream → OutStream
clear s = record s { eof = false; failed = false }
