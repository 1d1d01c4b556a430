-- ===== src/Caching/Keys.antt =====
-- backend/app/caching/keys.py: the key of a question and the tokens that tell questions apart.
-- SHA-256 is a parameter. A frozenset is a list that is compared by its members.
use Prim.Native.Char.{Char, code}
use Prim.Native.String.{◌++◌}
use production_rag_system.Prelude.{
  String, Bool, true, false, ◌&&◌, ◌||◌, not, List, [], ◌∷◌, filterb, contains, leb, ◌==◌,
  if◌then◌else◌,
}
use production_rag_system.Prelude.Text.{Unicode, strip, split, join, runs, is_empty}

-- The characters of " ?!.,;:".
unfoldable pub is_margin : Char → Bool
is_margin c =
    let n = code c in
    n == b' ' || n == b'?' || n == b'!' || n == b'.' || n == b',' || n == b';' || n == b':'

unfoldable pub lstrip_margin : String → String
unfolding is_margin
lstrip_margin String.[] = String.[]
lstrip_margin (String.◌∷◌ c s) =
    let rest = lstrip_margin s in if is_margin c then rest else String.◌∷◌ c s

unfoldable pub rstrip_margin : String → String
unfolding is_margin
rstrip_margin String.[] = String.[]
rstrip_margin (String.◌∷◌ c s) =
    let rest = rstrip_margin s in
    if is_margin c && is_empty rest then String.[] else String.◌∷◌ c rest

unfoldable pub normalize : Unicode → String → String
unfolding strip split join lstrip_margin rstrip_margin
normalize u query = rstrip_margin (lstrip_margin (join " " (split (u.lower (strip query)))))

unfoldable pub exact_key : (String → String) → String → String → String
exact_key sha256 normalized prefix = prefix ++ sha256 normalized

abbrev stopwords : List String
stopwords =
    "the" ∷ "a" ∷ "an" ∷ "is" ∷ "are" ∷ "was" ∷ "were" ∷ "be" ∷ "been" ∷ "being" ∷ "and" ∷ "or"
    ∷ "but" ∷ "if" ∷ "then" ∷ "than" ∷ "that" ∷ "this" ∷ "these" ∷ "those" ∷ "of" ∷ "in" ∷ "on"
    ∷ "at" ∷ "to" ∷ "for" ∷ "from" ∷ "by" ∷ "with" ∷ "about" ∷ "i" ∷ "me" ∷ "my" ∷ "you" ∷ "your"
    ∷ "it" ∷ "its" ∷ "do" ∷ "does" ∷ "did" ∷ "can" ∷ "how" ∷ "what" ∷ "when" ∷ "where" ∷ "which"
    ∷ "who" ∷ "whom" ∷ "why" ∷ []

abbrev is_digit : Char → Bool
is_digit c = leb b'0' (code c) && leb (code c) b'9'

-- `[a-z0-9()./-]`
unfoldable pub is_token : Char → Bool
is_token c =
    let n = code c in
    (leb b'a' n && leb n b'z')
    || is_digit c
    || n == b'('
    || n == b')'
    || n == b'.'
    || n == b'/'
    || n == b'-'

unfoldable pub key_terms : String → List String
unfolding runs is_token
key_terms normalized = filterb (λ t. not (contains stopwords t)) (runs is_token normalized)

abbrev is_century : Char → Char → Bool
is_century a b = (code a == b'1' && code b == b'9') || (code a == b'2' && code b == b'0')

-- `^(19|20)\d{2}$`
unfoldable pub is_year : String → Bool
is_year (String.◌∷◌ a (String.◌∷◌ b (String.◌∷◌ c (String.◌∷◌ d String.[])))) =
    is_century a b && (is_digit c && is_digit d)
is_year _ = false

-- Where the match of `^\d+(\(\d+\))+$|^\d+\.\d+$` stands.
pub data Section : Type 0 where
  start number opened clause closed point decimal : Section

unfoldable pub match_section : Section → String → Bool
match_section closed String.[] = true
match_section decimal String.[] = true
match_section _ String.[] = false
match_section start (String.◌∷◌ c s) = is_digit c && match_section number s
match_section number (String.◌∷◌ c s) =
    (is_digit c && match_section number s)
    || (code c == b'(' && match_section opened s)
    || (code c == b'.' && match_section point s)
match_section opened (String.◌∷◌ c s) = is_digit c && match_section clause s
match_section clause (String.◌∷◌ c s) =
    (is_digit c && match_section clause s) || (code c == b')' && match_section closed s)
match_section closed (String.◌∷◌ c s) = code c == b'(' && match_section opened s
match_section point (String.◌∷◌ c s) = is_digit c && match_section decimal s
match_section decimal (String.◌∷◌ c s) = is_digit c && match_section decimal s

unfoldable pub discriminators : String → List String → List String
unfolding key_terms is_year match_section
discriminators normalized terms =
    filterb (λ t. contains terms t || is_year t || match_section start t) (key_terms normalized)

-- `==` of two frozensets.
abbrev subset : List String → List String → Bool
subset [] ys = true
subset (x ∷ xs) ys = contains ys x && subset xs ys

unfoldable pub same_set : List String → List String → Bool
same_set xs ys = subset xs ys && subset ys xs
