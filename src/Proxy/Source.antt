-- ===== src/Proxy/Source.antt =====
-- src/proxyproto.rs: what a source address is made of.
use chonkline.Base.{
  ◌≡◌, Bool, true, false, not, ◌&&◌, List, [], ◌∷◌, ◌==◌, if◌then◌else◌, Text, Bytes, text_eq,
  codes, All, if_cases, if_both, Option-cases, inl, inr,
}
use chonkline.Str.{strip_prefix}
use chonkline.Str.Split.{split}
use chonkline.Str.Utf8.{from_utf8}
use chonkline.Str.Address.{is_ipv4, is_ipv6, is_ipv4-address, is_ipv6-address, is_address_char}
use chonkline.Proxy.{Header, source, unknown, invalid, source_of, header_of, header_text, parse_v1}

abbrev IsClean : Header → Type 0
IsClean (source s) = All (λ c. is_address_char c ≡ true) s
IsClean _ = Unit

-- an address, if there is one, is made of hexadecimal digits, dots and colons
pub record HasCleanSource (h : Header) : Type 0 where
  pub clean : IsClean h

nothing : HasCleanSource invalid
nothing = record { clean = tt }

nobody : HasCleanSource unknown
nobody = record { clean = tt }

source_of-HasCleanSource :
    (proto : Text) (parts : List Text) → HasCleanSource (source_of proto parts)
unfolding source_of
source_of-HasCleanSource proto [] = nothing
source_of-HasCleanSource proto (a ∷ []) = nothing
source_of-HasCleanSource proto (a ∷ b ∷ []) = nothing
source_of-HasCleanSource proto (a ∷ b ∷ c ∷ []) = nothing
source_of-HasCleanSource proto (a ∷ b ∷ c ∷ d ∷ e ∷ more) = nothing
source_of-HasCleanSource proto (src ∷ dst ∷ sport ∷ dport ∷ []) = if_both HasCleanSource _ nothing (
    if_both HasCleanSource _ nothing (
      if_cases HasCleanSource (if proto == codes "TCP4" then is_ipv4 src else is_ipv6 src)
        (source src) invalid (λ e. record { clean = checked (proto == codes "TCP4") e })
        (λ e. nothing)))
  where
    checked :
        (b : Bool)
        → (if b then is_ipv4 src else is_ipv6 src) ≡ true
        → All (λ c. is_address_char c ≡ true) src
    checked true e = is_ipv4-address src e
    checked false e = is_ipv6-address src e

header_of-HasCleanSource : (parts : List Text) → HasCleanSource (header_of parts)
unfolding header_of
header_of-HasCleanSource [] = nothing
header_of-HasCleanSource (proto ∷ parts) =
    if_both HasCleanSource (proto == codes "UNKNOWN") nobody (
      if_both HasCleanSource (not (proto == codes "TCP4") && not (proto == codes "TCP6")) nothing
        (source_of-HasCleanSource proto parts))

header_text-HasCleanSource : (text : Text) → HasCleanSource (header_text text)
header_text-HasCleanSource text = elim (Option-cases (strip_prefix (codes "PROXY ") text)) [
  | inl n ↦ rw (n, header_text) nothing
  | inr (rest, n) ↦ rw (n, header_text) (header_of-HasCleanSource (split b' ' rest))
]

-- Whatever a line holds, the source address it gives, if it gives one, consists of hexadecimal digits, dots
-- and colons: no text of another kind comes into cloaks or masks from a header.
pub parse_v1-HasCleanSource : (line : Bytes) → HasCleanSource (parse_v1 line)
unfolding parse_v1
parse_v1-HasCleanSource line = elim (Option-cases (from_utf8 line)) [
  | inl n ↦ rw (n, parse_v1) nothing
  | inr (text, n) ↦
      rw (n, parse_v1) (if_both HasCleanSource _ nothing (header_text-HasCleanSource text))
]
