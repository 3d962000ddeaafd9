-- ===== src/Glob/Spec.antt =====
-- src/bans.rs: what a mask means, with no search order in it: `*` stands for any run of characters and `?` for
-- one character.
use chonkline.Base.{ℕ, ◌≡◌, ◌≢◌, refl, true, ◌||◌, [], ◌∷◌, nat_beq, Text}

pub data Matches : Text → Text → Type 0 where
  done : Matches [] []
  one :
      {p c : ℕ} {m t : Text}
      → p ≢ b'*'
      → (nat_beq p b'?' || nat_beq p c) ≡ true
      → Matches m t
      → Matches (p ∷ m) (c ∷ t)
  leave : {p : ℕ} {m t : Text} → p ≡ b'*' → Matches m t → Matches (p ∷ m) t
  take : {p c : ℕ} {m t : Text} → p ≡ b'*' → Matches (p ∷ m) t → Matches (p ∷ m) (c ∷ t)

-- Only stars match the empty text, and nothing but the empty text matches the empty mask.
pub inv_nil : {m t : Text} → Matches m t → m ≡ [] → t ≡ []
inv_nil done e = refl
inv_nil (one a b c) e = cc
inv_nil (leave a b) e = cc
inv_nil (take a b) e = cc

pub inv_one :
    {p c : ℕ} {m t : Text}
    → Matches (p ∷ m) (c ∷ t)
    → p ≢ b'*'
    → ((nat_beq p b'?' || nat_beq p c) ≡ true) × Matches m t
inv_one (one a b c) n = (b, c)
inv_one (leave a b) n = absurd (n a)
inv_one (take a b) n = absurd (n a)

pub inv_end : {p : ℕ} {m : Text} → Matches (p ∷ m) [] → (p ≡ b'*') × Matches m []
inv_end (leave a b) = (a, b)

-- A star that does not stop here takes a character.
pub must_take :
    {p c : ℕ} {m t : Text}
    → Matches (p ∷ m) (c ∷ t)
    → p ≡ b'*'
    → ¬ Matches m (c ∷ t)
    → Matches (p ∷ m) t
must_take (one a b d) e n = absurd (a e)
must_take (leave a d) e n = absurd (n d)
must_take (take a d) e n = d

-- A star after a star adds nothing.
pub star_star :
    {p q : ℕ} {m t : Text} → Matches (p ∷ q ∷ m) t → p ≡ b'*' → q ≡ b'*' → Matches (q ∷ m) t
star_star (one a b d) e k = absurd (a e)
star_star (leave a d) e k = d
star_star (take a d) e k = take k (star_star d e k)

-- Where one character matched, the part of the mask behind it starts after that character or later.
pub star_after :
    {p q : ℕ} {m : Text} (c : ℕ) (t : Text)
    → Matches (p ∷ q ∷ m) (c ∷ t)
    → p ≡ b'*'
    → q ≢ b'*'
    → Matches (p ∷ m) t
star_after c t (one a b d) e n = absurd (a e)
star_after c t (leave a d) e n = leave e (inv_one d n).1
star_after c [] (take a d) e n = absurd (n (inv_end (inv_end d).1).0)
star_after c (x ∷ t) (take a d) e n = take e (star_after x t d e n)
