-- ===== src/Proxy/Stream.antt =====
-- src/proxyproto.rs: reading a header off a stream.
use chonkline.Base.{
  ℕ, zero, suc, ◌+◌, ◌≤◌, ◌<◌, ◌≡◌, ◌≢◌, refl, ap, ◌∙◌, false, none, [], ◌∷◌, ◌++◌, length, reverse,
  leb, Bytes, arith, Option-cases, inl, inr, append_assoc, append-nil, if_cases,
}
use mathlib.Core.List.{reverse_aux-eq}
use chonkline.Str.Split.{Without}
use chonkline.Proxy.{Header, invalid, parse_v1, read_from, read_v1, ended_line, max_v1_header}

-- what was taken off the stream, no more than so many bytes
pub record Took (limit : ℕ) (stream : Bytes) (r : Header × Bytes) : Type 0 where
  pub taken : Bytes
  pub split : stream ≡ taken ++ r.1
  pub short : length taken ≤ limit

one_more :
    (n : ℕ) (b : ℕ) (stream : Bytes) (r : Header × Bytes)
    → Took n stream r
    → Took (suc n) (b ∷ stream) r
one_more n b stream r t = record {
  taken = b ∷ t.taken;
  split = ap (◌∷◌ b) t.split;
  short = omega (arith, t.short);
}

read_from-Took :
    (n : ℕ) (line stream : Bytes)
    → length line + suc n ≡ max_v1_header
    → Took (suc n) stream (read_from line stream)
unfolding read_from
read_from-Took n line [] h = record { taken = []; split = refl; short = omega arith }
read_from-Took n line (b ∷ stream) h = elim (Option-cases (ended_line (b ∷ line))) [
  | inl e ↦
      rw (e, read_from)
        (if_cases (Took (suc n) (b ∷ stream)) (leb max_v1_header (length (b ∷ line))) _ _ (λ t. one)
          (λ f. further n h (leb_false f) (λ m. read_from-Took m (b ∷ line) stream)))
  | inr (done, e) ↦ rw (e, read_from) (record { taken = b ∷ []; split = refl; short = omega arith })
]
  where
    one : Took (suc n) (b ∷ stream) (invalid, stream)
    one = record { taken = b ∷ []; split = refl; short = omega arith }

    leb_false : leb max_v1_header (length (b ∷ line)) ≡ false → length (b ∷ line) < max_v1_header
    leb_false f = ground (arith, f)

    further :
        (m : ℕ)
        → length line + suc m ≡ max_v1_header
        → length (b ∷ line) < max_v1_header
        → ((k : ℕ)
            → length (b ∷ line) + suc k ≡ max_v1_header
            → Took (suc k) stream (read_from (b ∷ line) stream))
        → Took (suc m) (b ∷ stream) (read_from (b ∷ line) stream)
    further zero k f next = absurd (omega arith)
    further (suc m) k f next = one_more (suc m) b stream _ (next m (omega (arith, k)))

-- At most 107 bytes are taken off a stream, whatever it holds, and what is left is the rest of it.
pub read_v1-Took : (stream : Bytes) → Took max_v1_header stream (read_v1 stream)
unfolding read_v1
read_v1-Took stream = read_from-Took 106 [] stream refl

reverse-cons : (b : ℕ) (line : Bytes) → reverse (b ∷ line) ≡ reverse line ++ b ∷ []
reverse-cons b line = reverse_aux-eq line (b ∷ [])

not_ended : (b : ℕ) (line : Bytes) → b ≢ 10 → ended_line (b ∷ line) ≡ none
not_ended b [] ne = refl
not_ended b (cr ∷ line) ne = ground (arith, ne)

read_from-line :
    (line text rest : Bytes)
    → Without 10 text
    → length line + length text + 2 ≤ max_v1_header
    → read_from line (text ++ 13 ∷ 10 ∷ rest) ≡ (parse_v1 (reverse line ++ text), rest)
unfolding read_from
read_from-line line [] rest w h =
    let e = not_ended 13 line (λ k. absurd (omega (arith, k))) in
    let f : leb max_v1_header (length (13 ∷ line)) ≡ false = ground (arith, h) in
    rw (e, f, append-nil (reverse line), read_from) refl
read_from-line line (b ∷ text) rest w h =
    let e = not_ended b line w.0 in
    let f : leb max_v1_header (length (b ∷ line)) ≡ false = ground (arith, h) in
    rw (e, f, read_from)
      (read_from-line (b ∷ line) text rest w.1 (omega arith)
        ∙ ap (λ (x : Bytes). (parse_v1 x, rest))
            (ap (λ (x : Bytes). x ++ text) (reverse-cons b line)
              ∙ append_assoc (reverse line) (b ∷ []) text))

-- A header line that is short enough and has no line feed of its own is parsed as it stands, and exactly
-- the bytes behind its CR-LF are left on the stream.
pub read_v1-line :
    (text rest : Bytes)
    → Without 10 text
    → length text ≤ 105
    → read_v1 (text ++ 13 ∷ 10 ∷ rest) ≡ (parse_v1 text, rest)
unfolding read_v1
read_v1-line text rest w h = read_from-line [] text rest w (omega arith)
