-- ===== src/Str/Address.antt =====
-- `parse::<Ipv4Addr>()` and `parse::<Ipv6Addr>()`: a parser gives what is left of the text.
use chonkline.Base.{
  ℕ, zero, suc, ◌+◌, ◌-◌, ◌*◌, ◌≡◌, refl, ap, sym, ◌∙◌, Bool, true, false, ◌&&◌, ◌||◌, Option, none,
  some, some-injective, [], ◌∷◌, ◌++◌, append_assoc, length, nat_beq, ltb, leb, if◌then◌else◌, Text,
  All, All-append, ◌>>=◌, arith, Bool-cases, inl, inr, if_both, append-nil,
}
use chonkline.Str.{is_ascii_digit, is_ascii_hexdigit}

unfoldable pub span : (ℕ → Bool) → Text → Text × Text
span p [] = ([], [])
span p (c ∷ s) = let more = span p s in if p c then (c ∷ more.0, more.1) else ([], c ∷ s)

unfoldable pub given_char : ℕ → Text → Option Text
given_char x [] = none
given_char x (c ∷ s) = if nat_beq c x then some s else none

abbrev decimal : ℕ → Text → ℕ
decimal n [] = n
decimal n (c ∷ s) = decimal (n * 10 + (c - b'0')) s

abbrev leading_zero : Text → Bool
leading_zero (c ∷ d ∷ s) = nat_beq c b'0'
leading_zero _ = false

-- one to three digits, no zero in front of another digit, at most 255
unfoldable pub octet : Text → Option Text
octet s =
    let run = span is_ascii_digit s in
    if nat_beq (length run.0) 0
      || ltb 3 (length run.0)
      || leading_zero run.0
      || ltb 255 (decimal 0 run.0)
    then none
    else some run.1

unfoldable pub read_ipv4 : Text → Option Text
read_ipv4 s = octet s >>= λ a. given_char b'.' a >>= λ b.
    octet b >>= λ c. given_char b'.' c >>= λ d. octet d >>= λ e. given_char b'.' e >>= λ f. octet f

-- one to four hexadecimal digits
unfoldable pub group : Text → Option Text
group s =
    let run = span is_ascii_hexdigit s in
    if nat_beq (length run.0) 0 || ltb 4 (length run.0) then none else some run.1

abbrev separated : ℕ → Text → Option Text
separated zero s = some s
separated (suc i) s = given_char b':' s

-- what is left after the groups that are there, their number, and whether an IPv4 address ends them
abbrev Groups : Type 0
Groups = Text × ℕ × Bool

abbrev after_group : Option Groups → Text → ℕ → Groups
after_group none s i = (s, i, false)
after_group (some g) s i = g

abbrev with_ipv4 : Option Text → ℕ → Groups → Groups
with_ipv4 none i other = other
with_ipv4 (some r) i other = (r, i + 2, true)

abbrev or_stay : Option Text → Groups → (Text → Groups) → Groups
or_stay none stay next = stay
or_stay (some r) stay next = next r

-- groups number `i` and on, of which so many are left
unfoldable pub read_groups : ℕ → ℕ → Text → Groups
read_groups zero i s = (s, i, false)
read_groups (suc zero) i s =
    or_stay (separated i s >>= group) (s, i, false) (λ r. read_groups zero (i + 1) r)
read_groups (suc (suc left)) i s =
    with_ipv4 (separated i s >>= read_ipv4) i
      (or_stay (separated i s >>= group) (s, i, false) (λ r. read_groups (suc left) (i + 1) r))

abbrev at_end : Option Text → Bool
at_end (some []) = true
at_end _ = false

unfoldable pub is_ipv4 : Text → Bool
is_ipv4 s = leb (length s) 15 && at_end (read_ipv4 s)

abbrev tail_of : Groups → Option Text
tail_of (r, n, v4) =
    let rest =
      given_char b':' r >>= λ t. given_char b':' t >>= λ u. some (read_groups (7 - n) 0 u).0 in
    if nat_beq n 8 then some r else if v4 then none else rest

unfoldable pub is_ipv6 : Text → Bool
is_ipv6 s = at_end (tail_of (read_groups 8 0 s))

-- a character of an address
abbrev pub is_address_char : ℕ → Bool
is_address_char c = is_ascii_hexdigit c || nat_beq c b'.' || nat_beq c b':'

-- characters of an address in front of what is left
record Reads (s r : Text) : Type 0 where
  taken : Text
  split : s ≡ taken ++ r
  address : All (λ c. is_address_char c ≡ true) taken

none-Reads : (s : Text) → Reads s s
none-Reads s = record { taken = []; split = refl; address = tt }

then-Reads : {s r t : Text} → Reads s r → Reads r t → Reads s t
then-Reads {s} {r} {t} h k = record {
  taken = h.taken ++ k.taken;
  split = h.split ∙ ap (◌++◌ h.taken) k.split ∙ sym (append_assoc h.taken k.taken t);
  address = All-append (λ c. is_address_char c ≡ true) h.taken k.taken h.address k.address;
}

span-Reads :
    (p : ℕ → Bool) (s : Text)
    → ((c : ℕ) → p c ≡ true → is_address_char c ≡ true)
    → Reads s (span p s).1
unfolding span
span-Reads p [] ok = none-Reads []
span-Reads p (c ∷ s) ok = elim (Bool-cases (p c)) [
  | inl h ↦
      let rest = span-Reads p s ok in
      rw (h, span)
        (record {
          taken = c ∷ rest.taken;
          split = ap (◌∷◌ c) rest.split;
          address = (ok c h, rest.address);
        })
  | inr h ↦ rw (h, span) (none-Reads (c ∷ s))
]

given_char-Reads :
    (x : ℕ) (s r : Text) → is_address_char x ≡ true → given_char x s ≡ some r → Reads s r
unfolding given_char
given_char-Reads x [] r ok h = cc
given_char-Reads x (c ∷ s) r ok h = elim (Bool-cases (nat_beq c x)) [
  | inl e ↦
      let same : c ≡ x = ground (arith, e) in
      let left : s ≡ r = some-injective _ _ (rw (e, given_char) at h) in
      rw (← left) (record { taken = c ∷ []; split = refl; address = (rw same ok, tt) })
  | inr e ↦ let bad : none ≡ some r = rw (e, given_char) at h in cc
]

digit_address : (c : ℕ) → is_ascii_digit c ≡ true → is_address_char c ≡ true
unfolding is_ascii_digit is_ascii_hexdigit
digit_address c h = ground (arith, h)

hexdigit_address : (c : ℕ) → is_ascii_hexdigit c ≡ true → is_address_char c ≡ true
hexdigit_address c h = rw h refl

-- what an attempt gives, if it gives anything, is read off the front
record Fronts (s : Text) (o : Option Text) : Type 0 where
  fronts : (r : Text) → o ≡ some r → Reads s r

no_front : (s : Text) → Fronts s none
no_front s = record { fronts = λ r h. cc }

some_front : {s r : Text} → Reads s r → Fronts s (some r)
some_front {s} {r} k = record { fronts = λ t h. rw (← some-injective _ _ h) k }

bind-Fronts :
    (s : Text) (o : Option Text) (f : Text → Option Text)
    → Fronts s o
    → ((r : Text) → Fronts r (f r))
    → Fronts s (o >>= f)
bind-Fronts s none f h k = no_front s
bind-Fronts s (some r) f h k = record {
  fronts = λ t e. then-Reads (h.fronts r refl) ((k r).fronts t e);
}

char-Fronts : (x : ℕ) → is_address_char x ≡ true → (s : Text) → Fronts s (given_char x s)
char-Fronts x ok s = record { fronts = λ r h. given_char-Reads x s r ok h }

octet-Fronts : (s : Text) → Fronts s (octet s)
unfolding octet
octet-Fronts s =
    if_both (Fronts s) _ (no_front s) (some_front (span-Reads is_ascii_digit s digit_address))

group-Fronts : (s : Text) → Fronts s (group s)
unfolding group
group-Fronts s =
    if_both (Fronts s) _ (no_front s) (some_front (span-Reads is_ascii_hexdigit s hexdigit_address))

dot_ok : is_address_char b'.' ≡ true
unfolding is_ascii_hexdigit
dot_ok = refl

colon_ok : is_address_char b':' ≡ true
unfolding is_ascii_hexdigit
colon_ok = refl

read_ipv4-Fronts : (s : Text) → Fronts s (read_ipv4 s)
unfolding read_ipv4
read_ipv4-Fronts s =
    let dot = char-Fronts b'.' dot_ok in
    bind-Fronts s _ _ (octet-Fronts s) (λ a. bind-Fronts a _ _ (dot a) (λ b.
      bind-Fronts b _ _ (octet-Fronts b) (λ c. bind-Fronts c _ _ (dot c) (λ d.
        bind-Fronts d _ _ (octet-Fronts d)
          (λ e. bind-Fronts e _ _ (dot e) (λ f. octet-Fronts f))))))

separated-Fronts : (i : ℕ) (s : Text) → Fronts s (separated i s)
separated-Fronts zero s = some_front (none-Reads s)
separated-Fronts (suc i) s = char-Fronts b':' colon_ok s

or_stay-Reads :
    (s : Text) (o : Option Text) (i : ℕ) (next : Text → Groups)
    → Fronts s o
    → ((r : Text) → Reads r (next r).0)
    → Reads s (or_stay o (s, i, false) next).0
or_stay-Reads s none i next h k = none-Reads s
or_stay-Reads s (some r) i next h k = then-Reads (h.fronts r refl) (k r)

with_ipv4-Reads :
    (s : Text) (o : Option Text) (i : ℕ) (other : Groups)
    → Fronts s o
    → Reads s other.0
    → Reads s (with_ipv4 o i other).0
with_ipv4-Reads s none i other h k = k
with_ipv4-Reads s (some r) i other h k = h.fronts r refl

read_groups-Reads : (left i : ℕ) (s : Text) → Reads s (read_groups left i s).0
unfolding read_groups
read_groups-Reads zero i s = none-Reads s
read_groups-Reads (suc zero) i s =
    or_stay-Reads s _ i _ (bind-Fronts s _ group (separated-Fronts i s) group-Fronts)
      (λ r. read_groups-Reads zero (i + 1) r)
read_groups-Reads (suc (suc left)) i s =
    with_ipv4-Reads s _ i _ (bind-Fronts s _ read_ipv4 (separated-Fronts i s) read_ipv4-Fronts) (
      or_stay-Reads s _ i _ (bind-Fronts s _ group (separated-Fronts i s) group-Fronts)
        (λ r. read_groups-Reads (suc left) (i + 1) r))

-- a text that is read to its end
ended :
    (s : Text) (o : Option Text)
    → Fronts s o
    → at_end o ≡ true
    → All (λ c. is_address_char c ≡ true) s
ended s none h e = cc
ended s (some (c ∷ r)) h e = cc
ended s (some []) h e =
    let all = h.fronts [] refl in rw (all.split ∙ append-nil all.taken) all.address

behind : {s r : Text} {o : Option Text} → Reads s r → Fronts r o → Fronts s o
behind k h = record { fronts = λ t e. then-Reads k (h.fronts t e) }

pub is_ipv4-address : (s : Text) → is_ipv4 s ≡ true → All (λ c. is_address_char c ≡ true) s
unfolding is_ipv4
is_ipv4-address s h = ended s (read_ipv4 s) (read_ipv4-Fronts s) (ground (arith, h))

pub is_ipv6-address : (s : Text) → is_ipv6 s ≡ true → All (λ c. is_address_char c ≡ true) s
unfolding is_ipv6
is_ipv6-address s h = ended s (tail_of (read_groups 8 0 s)) tail h
  where
    tail : Fronts s (tail_of (read_groups 8 0 s))
    tail =
        let front = read_groups-Reads 8 0 s in
        let colon = char-Fronts b':' colon_ok in
        let n = (read_groups 8 0 s).1 in
        if_both (Fronts s) _ (some_front front) (
          if_both (Fronts s) _ (no_front s) (
            behind front (
              bind-Fronts (read_groups 8 0 s).0 _ _ (colon (read_groups 8 0 s).0) (λ t.
                bind-Fronts t _ _ (colon t) (λ u. some_front (read_groups-Reads (7 - n) 0 u))))))
