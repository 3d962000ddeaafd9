-- ===== src/Str/Split.antt =====
-- `split` at a character, `lines`, and joining.
use chonkline.Base.{
  ℕ, ◌≡◌, ◌≢◌, refl, ap, List, [], ◌∷◌, ◌++◌, nat_beq, if◌then◌else◌, Text, All, arith, ◌∙◌,
}

-- the first piece is put in front of the rest
unfoldable pub onto : ℕ → List Text → List Text
onto c [] = (c ∷ []) ∷ []
onto c (piece ∷ pieces) = (c ∷ piece) ∷ pieces

-- `s.split(sep)`: always one piece at least
unfoldable pub split : ℕ → Text → List Text
unfolding onto
split sep [] = [] ∷ []
split sep (c ∷ s) = let rest = split sep s in if nat_beq c sep then [] ∷ rest else onto c rest

-- `pieces.join(sep)`
unfoldable pub join : Text → List Text → Text
join sep [] = []
join sep (piece ∷ []) = piece
join sep (piece ∷ next ∷ pieces) = piece ++ (sep ++ join sep (next ∷ pieces))

abbrev pub Without : ℕ → Text → Type 0
Without sep = All (λ c. c ≢ sep)

pub split-piece : (sep : ℕ) (piece : Text) → Without sep piece → split sep piece ≡ piece ∷ []
unfolding split
split-piece sep [] h = refl
split-piece sep (c ∷ piece) h = ground (arith, split-piece sep piece h.1)

-- A piece without the separator stands in front of the pieces of the rest.
pub split-append :
    (sep : ℕ) (piece rest : Text)
    → Without sep piece
    → split sep (piece ++ sep ∷ rest) ≡ piece ∷ split sep rest
unfolding split
split-append sep [] rest h = ground arith
split-append sep (c ∷ piece) rest h = ground (arith, split-append sep piece rest h.1)

pub split-join :
    (sep : ℕ) (piece : Text) (pieces : List Text)
    → All (Without sep) (piece ∷ pieces)
    → split sep (join (sep ∷ []) (piece ∷ pieces)) ≡ piece ∷ pieces
unfolding join
split-join sep piece [] h = split-piece sep piece h.0
split-join sep piece (next ∷ pieces) h =
    split-append sep piece _ h.0 ∙ ap (◌∷◌ piece) (split-join sep next pieces h.1)

-- the carriage return at the end of a line, which `lines` drops
unfoldable pub chomp : Text → Text
chomp [] = []
chomp (c ∷ []) = if nat_beq c 13 then [] else c ∷ []
chomp (c ∷ d ∷ s) = c ∷ chomp (d ∷ s)

-- A piece that a line feed ends loses its carriage return; the last piece is a line as it is, and no
-- line if it is empty.
unfoldable pub line_pieces : List Text → List Text
unfolding chomp
line_pieces [] = []
line_pieces ([] ∷ []) = []
line_pieces ((c ∷ s) ∷ []) = (c ∷ s) ∷ []
line_pieces (piece ∷ next ∷ pieces) = chomp piece ∷ line_pieces (next ∷ pieces)

-- `str::lines`
unfoldable pub lines : Text → List Text
unfolding split line_pieces
lines s = line_pieces (split 10 s)

-- every line is ended by a line feed
unfoldable pub unlines : List Text → Text
unlines [] = []
unlines (s ∷ rest) = s ++ 10 ∷ unlines rest

pub chomp-Without : (s : Text) → Without 13 s → chomp s ≡ s
unfolding chomp
chomp-Without [] h = refl
chomp-Without (c ∷ []) h = ground arith
chomp-Without (c ∷ d ∷ s) h = ap (◌∷◌ c) (chomp-Without (d ∷ s) h.1)

split-unlines :
    (rest : List Text) → All (Without 10) rest → split 10 (unlines rest) ≡ rest ++ [] ∷ []
unfolding split unlines
split-unlines [] h = refl
split-unlines (s ∷ rest) h =
    split-append 10 s (unlines rest) h.0 ∙ ap (◌∷◌ s) (split-unlines rest h.1)

line_pieces-append :
    (rest : List Text) → All (Without 13) rest → line_pieces (rest ++ [] ∷ []) ≡ rest
unfolding line_pieces
line_pieces-append [] h = refl
line_pieces-append (s ∷ []) h = rw (chomp-Without s h.0) refl
line_pieces-append (s ∷ next ∷ rest) h =
    rw (chomp-Without s h.0, line_pieces-append (next ∷ rest) h.1)

pub lines-unlines :
    (rest : List Text) → All (Without 10) rest → All (Without 13) rest → lines (unlines rest) ≡ rest
unfolding lines
lines-unlines rest h k = rw (split-unlines rest h) (line_pieces-append rest k)
