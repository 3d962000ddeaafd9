-- ===== src/Proxy.antt =====
-- src/proxyproto.rs: the header of version 1 of the PROXY protocol. A stream is the bytes that are still
-- to come, and ends behind them; a read that fails is an end.
pub mod Source
pub mod Stream
mod Examples
use chonkline.Base.{
  ℕ, zero, suc, ◌+◌, ◌-◌, Bool, true, false, not, ◌&&◌, ◌||◌, Option, none, some, List, [], ◌∷◌,
  ◌++◌, length, all, nat_beq, ltb, leb, ◌==◌, if◌then◌else◌, Text, Bytes, text_eq, codes, reverse,
}
use chonkline.Str.{is_ascii_digit, strip_prefix}
use chonkline.Str.Split.{split}
use chonkline.Str.Utf8.{from_utf8}
use chonkline.Str.Address.{is_ipv4, is_ipv6}
use chonkline.Bans.{is_empty}

abbrev pub max_v1_header : ℕ
max_v1_header = 107

abbrev pub v2_signature : Bytes
v2_signature = 13 ∷ 10 ∷ 13 ∷ 10 ∷ 0 ∷ 13 ∷ 10 ∷ b'Q' ∷ b'U' ∷ b'I' ∷ b'T' ∷ 10 ∷ []

pub data Header : Type 0 where
  source : Text → Header
  unknown : Header
  invalid : Header
  empty : Header

abbrev is_some {ℓ} : {A : Type ℓ} → Option A → Bool
is_some none = false
is_some (some a) = true

abbrev is_port : Text → Bool
is_port s = not (is_empty s) && all is_ascii_digit s

-- the fields behind the protocol's name
unfoldable pub source_of : Text → List Text → Header
source_of proto (src ∷ dst ∷ sport ∷ dport ∷ []) =
    let ok = if proto == codes "TCP4" then is_ipv4 src else is_ipv6 src in
    if is_empty src
    then invalid
    else if not (is_port sport && is_port dport)
    then invalid
    else if ok
    then source src
    else invalid
source_of proto _ = invalid

unfoldable pub header_of : List Text → Header
unfolding source_of
header_of [] = invalid
header_of (proto ∷ parts) =
    if proto == codes "UNKNOWN"
    then unknown
    else if not (proto == codes "TCP4") && not (proto == codes "TCP6")
    then invalid
    else source_of proto parts

abbrev pub header_text : Text → Header
header_text text = elim (strip_prefix (codes "PROXY ") text) [
  | none ↦ invalid
  | some rest ↦ header_of (split b' ' rest)
]

unfoldable pub parse_v1 : Bytes → Header
unfolding header_of
parse_v1 line = elim (from_utf8 line) [
  | none ↦ invalid
  | some text ↦ if is_some (strip_prefix v2_signature line) then invalid else header_text text
]

-- the line, kept from its end, without the line feed and the carriage return there
abbrev pub ended_line : Bytes → Option Bytes
ended_line (lf ∷ cr ∷ rest) = if nat_beq cr 13 && nat_beq lf 10 then some (reverse rest) else none
ended_line _ = none

abbrev pub cut_short : Bytes → Header
cut_short [] = empty
cut_short (b ∷ line) = invalid

-- the bytes read so far, from the latest one on; and what is left of the stream
unfoldable pub read_from : Bytes → Bytes → Header × Bytes
unfolding parse_v1
read_from line [] = (cut_short line, [])
read_from line (b ∷ stream) =
    let more = read_from (b ∷ line) stream in
    elim (ended_line (b ∷ line)) [
      | some done ↦ (parse_v1 done, stream)
      | none ↦ if leb max_v1_header (length (b ∷ line)) then (invalid, stream) else more
    ]

unfoldable pub read_v1 : Bytes → Header × Bytes
unfolding read_from
read_v1 stream = read_from [] stream
