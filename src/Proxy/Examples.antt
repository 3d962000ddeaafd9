-- ===== src/Proxy/Examples.antt =====
-- src/proxyproto.rs at concrete lines.
use chonkline.Base.{◌≡◌, refl, [], ◌∷◌, Bytes, codes, arith, text_beq}
use chonkline.Str.{strip_prefix, is_ascii_digit, is_ascii_hexdigit}
use chonkline.Str.Split.{split, onto}
use chonkline.Str.Utf8.{from_utf8, decode_from}
use chonkline.Str.Address.{is_ipv4, is_ipv6, read_ipv4, read_groups, octet, group, given_char, span}
use chonkline.Proxy.{
  source, unknown, invalid, parse_v1, header_of, source_of, read_v1, max_v1_header,
}
use chonkline.Proxy.Source.{HasCleanSource, parse_v1-HasCleanSource}
use chonkline.Proxy.Stream.{Took, read_v1-Took, read_v1-line}

parses_both_families :
    (parse_v1 (codes "PROXY TCP4 203.0.113.7 10.2.1.11 54321 6667") ≡ source (codes "203.0.113.7"))
    × (parse_v1 (codes "PROXY TCP6 2001:db8::1 2001:db8::2 54321 6667")
        ≡ source (codes "2001:db8::1"))
    × (parse_v1 (codes "PROXY TCP4 2001:db8::1 10.2.1.11 1 2") ≡ invalid)
    × (parse_v1 (codes "PROXY TCP6 ::ffff:1.2.3.4 :: 1 2") ≡ source (codes "::ffff:1.2.3.4"))
    × (parse_v1 (codes "PROXY TCP4 01.2.3.4 10.2.1.11 1 2") ≡ invalid)
    × (parse_v1 (codes "PROXY UNKNOWN") ≡ unknown)
unfolding parse_v1 header_of source_of from_utf8 decode_from strip_prefix split onto text_beq
    is_ipv4 is_ipv6 read_ipv4 read_groups octet group given_char span is_ascii_digit
    is_ascii_hexdigit
parses_both_families = (refl, refl, refl, refl, refl, refl)

parse_v1-HasCleanSource_example :
    HasCleanSource (parse_v1 (codes "PROXY TCP4 203.0.113.7 10.2.1.11 1 6667"))
parse_v1-HasCleanSource_example =
    parse_v1-HasCleanSource (codes "PROXY TCP4 203.0.113.7 10.2.1.11 1 6667")

abbrev stream : Bytes
stream = codes "PROXY UNKNOWN\r\nNICK bob"

read_v1-Took_example : Took max_v1_header stream (read_v1 stream)
read_v1-Took_example = read_v1-Took stream

read_v1-line_example :
    read_v1 (b'P' ∷ b'R' ∷ 13 ∷ 10 ∷ codes "NICK") ≡ (parse_v1 (b'P' ∷ b'R' ∷ []), codes "NICK")
read_v1-line_example =
    read_v1-line (b'P' ∷ b'R' ∷ []) (codes "NICK")
      (λ e. absurd (omega (arith, e)), (λ e. absurd (omega (arith, e)), tt)) (omega arith)
