-- ===== src/Bans/File.antt =====
-- src/bans.rs: the ban file across a restart, `persist` against `load`.
use chonkline.Base.{
  ℕ, ◌≤◌, ◌<◌, ◌≡◌, ◌≢◌, refl, ap, true, Option, some, List, [], ◌∷◌, ◌++◌, map, retain, Text, All,
  arith, All-append, All-retain, sym, ◌∙◌,
}
use chonkline.Str.Split.{Without, split, split-join, join, lines-unlines}
use chonkline.Str.Decimal.{
  to_decimal, u64_max, parse_uint-to_decimal, to_decimal-Digits, Digits-Without,
}
use chonkline.Bans.{
  Ban, BanStore, ban_of_fields, load_lines, load, persist, line_of, add, made, other_mask,
}

-- no tab, line feed or carriage return
abbrev pub IsPlain : Text → Type 0
IsPlain s = Without 9 s × Without 10 s × Without 13 s

-- a ban that one line of the file can hold
pub record IsStorable (b : Ban) : Type 0 where
  pub named : b.mask ≢ []
  pub mask_plain : IsPlain b.mask
  pub setter_plain : IsPlain b.setter
  pub reason_plain : IsPlain b.reason
  pub expiry_fits : b.expiry ≤ u64_max

decimal_plain : (n x : ℕ) → x < b'0' → Without x (to_decimal n)
decimal_plain n x h = Digits-Without x (to_decimal n) h (to_decimal-Digits n)

-- a line holds the characters of its fields and the tabs between them
line_of-Without :
    (x : ℕ) (b : Ban)
    → x ≢ 9
    → x < b'0'
    → Without x b.mask
    → Without x b.setter
    → Without x b.reason
    → Without x (line_of b)
unfolding join
line_of-Without x b ne h m s r =
    let tab : 9 ≢ x = λ e. ne (sym e) in
    after b.mask _ m tab
      (after (to_decimal b.expiry) _ (decimal_plain b.expiry x h) tab (after b.setter _ s tab r))
  where
    after :
        (piece rest : Text)
        → Without x piece
        → 9 ≢ x
        → Without x rest
        → Without x (piece ++ 9 ∷ rest)
    after piece rest p t q = All-append (λ c. c ≢ x) piece (9 ∷ rest) p (t, q)

ban_of :
    (mask : Text) (expiry : ℕ) (setter reason : Text)
    → mask ≢ []
    → expiry ≤ u64_max
    → ban_of_fields (mask ∷ to_decimal expiry ∷ setter ∷ reason ∷ [])
      ≡ some (record { mask = mask; expiry = expiry; setter = setter; reason = reason })
unfolding ban_of_fields
ban_of [] expiry setter reason ne fits = absurd (ne refl)
ban_of (c ∷ mask) expiry setter reason ne fits = rw (parse_uint-to_decimal u64_max expiry fits)

fields-line_of : (b : Ban) → IsStorable b → ban_of_fields (split 9 (line_of b)) ≡ some b
fields-line_of b k =
    ap ban_of_fields (
      split-join 9 b.mask (to_decimal b.expiry ∷ b.setter ∷ b.reason ∷ []) (
        k.mask_plain.0,
        (decimal_plain b.expiry 9 (omega arith), (k.setter_plain.0, (k.reason_plain.0, tt))),
      ))
    ∙ ban_of b.mask b.expiry b.setter b.reason k.named k.expiry_fits

load_lines-render : (bans : List Ban) → All IsStorable bans → load_lines (map line_of bans) ≡ bans
unfolding load_lines
load_lines-render [] k = refl
load_lines-render (b ∷ bans) k = rw (fields-line_of b k.0, load_lines, load_lines-render bans k.1)

lines_plain :
    (bans : List Ban)
    → All IsStorable bans
    → All (Without 10) (map line_of bans) × All (Without 13) (map line_of bans)
lines_plain [] k = (tt, tt)
lines_plain (b ∷ bans) k =
    let (h, r) = lines_plain bans k.1 in
    let p = k.0 in
    (
      (
        line_of-Without 10 b (omega arith) (omega arith) p.mask_plain.1 p.setter_plain.1
            p.reason_plain.1,
        h,
      ),
      (
        line_of-Without 13 b (omega arith) (omega arith) p.mask_plain.2 p.setter_plain.2
            p.reason_plain.2,
        r,
      ),
    )

-- A store of such bans that is written is loaded as it was.
pub load-persist :
    (p : Text) (bans : List Ban) (old : Option Text)
    → All IsStorable bans
    → let s : BanStore = record { path = some p; bans = bans } in
      load (some p) (persist s (record { content = old; writable = true })).content ≡ s
unfolding load persist
load-persist p bans old k =
    let (h, r) = lines_plain bans k in
    rw (lines-unlines (map line_of bans) h r, load_lines-render bans k)

-- Where the file can be written, and the new ban and the others each have a mask that is not empty, an
-- expiry within 64 bits, and no tab, line feed or carriage return in mask, setter and reason: the store
-- that is loaded from the file after `add` is the store that `add` left, the new ban and the others.
pub load-add :
    (p mask setter reason : Text) (duration now : ℕ) (bans : List Ban) (old : Option Text)
    → IsStorable (made mask duration setter reason now)
    → All IsStorable bans
    → let after =
        add mask duration setter reason now
          (record { path = some p; bans = bans }, record { content = old; writable = true }) in
      load (some p) after.1.content ≡ after.0
unfolding add persist
load-add p [] setter reason duration now bans old m k = absurd (m.named refl)
load-add p (c ∷ mask) setter reason duration now bans old m k =
    let kept = retain (other_mask (c ∷ mask)) bans in
    load-persist p (kept ++ made (c ∷ mask) duration setter reason now ∷ []) old
      (All-append IsStorable kept _ (All-retain IsStorable (other_mask (c ∷ mask)) bans k) (m, tt))
