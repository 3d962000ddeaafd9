-- ===== src/Link/Members.antt =====
-- src/link.rs: the membership list of FJOIN, as `parse_members` reads it and `fjoin_line` writes it.
use chonkline.Base.{
  ℕ, ◌≡◌, ◌≢◌, refl, true, false, not, Option, none, some, List, [], ◌∷◌, ◌++◌, map, all, retain,
  Text, All, All-append, arith, retain_id, if_cases,
}
use chonkline.Str.{is_ascii_digit, is_ascii_uppercase}
use chonkline.Str.Split.{split, join, Without, split-piece, split-join}
use chonkline.Proto.{split_once, is_empty}
use chonkline.Network.{valid_sid, valid_uid, valid_uuid, upper_or_digit}
use chonkline.Link.{parse_members, members_in, add_member, keep_valid}
use chonkline.Link.Render.{member_list, member_entry}

abbrev ValidMembers : List (Text × Text) → Type 0
ValidMembers = All (λ m. valid_uuid m.1 ≡ true)

keep_valid-Valid :
    (prefixes uuid : Text) (rest : List (Text × Text))
    → ValidMembers rest
    → ValidMembers (keep_valid prefixes uuid rest)
keep_valid-Valid prefixes uuid rest h =
    if_cases ValidMembers (valid_uuid uuid) ((prefixes, uuid) ∷ rest) rest (λ v. (v, h)) (λ _. h)

add_member-Valid :
    (entry : Option (Text × Text)) (rest : List (Text × Text))
    → ValidMembers rest
    → ValidMembers (add_member entry rest)
add_member-Valid none rest h = h
add_member-Valid (some (prefixes, tail)) rest h = keep_valid-Valid prefixes _ rest h

members_in-Valid : (entries : List Text) → ValidMembers (members_in entries)
members_in-Valid [] = tt
members_in-Valid (entry ∷ entries) =
    add_member-Valid (split_once b',' entry) (members_in entries) (members_in-Valid entries)

-- Every member that is read from a list, whatever the peer sends, has a well-formed UUID.
pub parse_members-Valid : (list : Text) → All (λ m. valid_uuid m.1 ≡ true) (parse_members list)
unfolding parse_members
parse_members-Valid list = members_in-Valid (retain (λ e. not (is_empty e)) (split b' ' list))

all-All : (s : Text) → all upper_or_digit s ≡ true → All (λ c. upper_or_digit c ≡ true) s
all-All [] h = tt
all-All (c ∷ s) h = ground (arith, all-All s)

valid_uuid-chars : (u : Text) → valid_uuid u ≡ true → All (λ c. upper_or_digit c ≡ true) u
unfolding valid_uuid valid_sid valid_uid
valid_uuid-chars [] h = tt
valid_uuid-chars (a ∷ []) h = cc
valid_uuid-chars (a ∷ b ∷ []) h = ground arith
valid_uuid-chars (a ∷ b ∷ c ∷ s) h = ground (arith, all-All s)

upper_or_digit-ne : (x c : ℕ) → upper_or_digit x ≡ false → upper_or_digit c ≡ true → c ≢ x
upper_or_digit-ne x c h k = λ e. ground arith

chars-Without :
    (x : ℕ) (s : Text)
    → upper_or_digit x ≡ false
    → All (λ c. upper_or_digit c ≡ true) s
    → Without x s
chars-Without x [] h k = tt
chars-Without x (c ∷ s) h k = (upper_or_digit-ne x c h k.0, chars-Without x s h k.1)

split_once-append :
    (sep : ℕ) (a b : Text) → Without sep a → split_once sep (a ++ sep ∷ b) ≡ some (a, b)
unfolding split_once
split_once-append sep [] b h = ground arith
split_once-append sep (c ∷ a) b h = ground (arith, split_once-append sep a b h.1)

-- a member that can be written: no blank and no comma in the prefixes, and a well-formed UUID
pub record IsMember (m : Text × Text) : Type 0 where
  pub no_blank : Without b' ' m.0
  pub no_comma : Without b',' m.0
  pub uuid_valid : valid_uuid m.1 ≡ true

Without-append : (x : ℕ) (a b : Text) → Without x a → Without x b → Without x (a ++ b)
Without-append x a b h k = All-append (λ c. c ≢ x) a b h k

blank_is_other : upper_or_digit b' ' ≡ false
unfolding is_ascii_uppercase is_ascii_digit
blank_is_other = refl

colon_is_other : upper_or_digit b':' ≡ false
unfolding is_ascii_uppercase is_ascii_digit
colon_is_other = refl

member_entry-Without : (m : Text × Text) → IsMember m → Without b' ' (member_entry m)
member_entry-Without (prefixes, uuid) w =
    Without-append b' ' prefixes (b',' ∷ uuid) w.no_blank (
      λ e. ground arith,
      chars-Without b' ' uuid blank_is_other (valid_uuid-chars uuid w.uuid_valid),
    )

member_entry-nonempty : (m : Text × Text) → not (is_empty (member_entry m)) ≡ true
member_entry-nonempty ([], uuid) = refl
member_entry-nonempty (c ∷ prefixes, uuid) = refl

entries-Without :
    (ms : List (Text × Text)) → All IsMember ms → All (Without b' ') (map member_entry ms)
entries-Without [] w = tt
entries-Without (m ∷ ms) w = (member_entry-Without m w.0, entries-Without ms w.1)

entries-nonempty :
    (ms : List (Text × Text)) → All (λ e. not (is_empty e) ≡ true) (map member_entry ms)
entries-nonempty [] = tt
entries-nonempty (m ∷ ms) = (member_entry-nonempty m, entries-nonempty ms)

members_in-entries :
    (ms : List (Text × Text)) → All IsMember ms → members_in (map member_entry ms) ≡ ms
members_in-entries [] w = refl
members_in-entries ((prefixes, uuid) ∷ ms) w =
    rw
      (
        split_once-append b',' prefixes uuid w.0.no_comma,
        split-piece b':' uuid
            (chars-Without b':' uuid colon_is_other (valid_uuid-chars uuid w.0.uuid_valid)),
        w.0.uuid_valid,
        members_in-entries ms w.1,
      )
      refl

-- Members that are written into an FJOIN line, with prefixes that hold no blank and no comma and
-- with well-formed UUIDs, are read back as they were, in order.
pub parse_members-member_list :
    (ms : List (Text × Text)) → All IsMember ms → parse_members (member_list ms) ≡ ms
unfolding parse_members
parse_members-member_list [] w = unfold split join in refl
parse_members-member_list (m ∷ ms) w =
    rw
      (
        split-join b' ' (member_entry m) (map member_entry ms)
            (member_entry-Without m w.0, entries-Without ms w.1),
        retain_id (λ e. not (is_empty e)) (map member_entry (m ∷ ms)) (entries-nonempty (m ∷ ms)),
      )
      (members_in-entries (m ∷ ms) w)
