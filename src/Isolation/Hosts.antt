-- ===== src/Isolation/Hosts.antt =====
-- The simplified eTLD+1 derivation that site_isolation.rs and fission.rs both spell out.
use b_browser.Prelude.{
  Bool, List, Option, Str, [], chars, if◌then◌else◌, leb, length, nat_same, none, some, ℕ, ◌++◌,
  ◌∷◌,
}
use b_browser.Prelude.Text.{split, join, starts_with}

abbrev after_scheme : Str → Str
after_scheme (a ∷ b ∷ c ∷ rest) = rest
after_scheme _ = []

abbrev prepend_scheme : ℕ → Option (Str × Str) → Option (Str × Str)
prepend_scheme c none = none
prepend_scheme c (some (before, after)) = some (c ∷ before, after)

-- `find("://")`, with the text before it and the text after it.
abbrev pub split_scheme : Str → Option (Str × Str)
split_scheme [] = none
split_scheme (c ∷ s) =
    let rest = split_scheme s in
    if starts_with (c ∷ s) (chars "://")
    then some ([], after_scheme (c ∷ s))
    else prepend_scheme c rest

-- `split(separators).next()`
abbrev pub first_piece : (ℕ → Bool) → Str → Str
first_piece p [] = []
first_piece p (c ∷ s) = let rest = first_piece p s in if p c then [] else c ∷ rest

abbrev pub last_two : List Str → List Str
last_two (a ∷ b ∷ []) = a ∷ b ∷ []
last_two (a ∷ b ∷ c ∷ rest) = last_two (b ∷ c ∷ rest)
last_two _ = []

-- `labels[labels.len() - 2..].join(".")`, or the host itself when it has one label.
abbrev pub registrable : Str → Str
registrable host =
    let labels = split (λ c. nat_same c 46) host in
    if leb 2 (length labels) then join (chars ".") (last_two labels) else host

abbrev pub site_of : (ℕ → Bool) → Str → Option (Str × Str) → Str
site_of separator url none =
    chars "https" ++ (chars "://" ++ registrable (first_piece separator url))
site_of separator url (some (scheme, rest)) =
    scheme ++ (chars "://" ++ registrable (first_piece separator rest))
