-- ===== src/Household/Labels.antt =====
-- The labels of src/penge/household/service.py, as lists of code points. Unicode's case folding
-- is data of the interpreter: it is the parameter `fold`, from a character to its folding.
use penge.Prelude.{
  ℕ, Bool, true, false, not, ◌&&◌, ◌||◌, leb, ◌==◌, List, [], ◌∷◌, ◌++◌, if◌then◌else◌,
}

abbrev pub Text : Type 0
Text = List ℕ

-- str.isspace
unfoldable pub is_space : ℕ → Bool
is_space c =
    (leb 9 c && leb c 13)
    || (leb 28 c && leb c 32)
    || c == 133
    || c == 160
    || c == 5760
    || (leb 8192 c && leb c 8202)
    || c == 8232
    || c == 8233
    || c == 8239
    || c == 8287
    || c == 12288

-- A character in front of the first word.
abbrev pub onto_first : ℕ → List Text → List Text
onto_first c [] = (c ∷ []) ∷ []
onto_first c (w ∷ ws) = (c ∷ w) ∷ ws

-- The text begins with a character of a word.
abbrev pub begins : (ℕ → Bool) → Text → Bool
begins p [] = false
begins p (c ∷ s) = p c

-- The maximal runs of characters with p: `split()`, and `findall` of a class with `+`.
unfoldable pub runs : (ℕ → Bool) → Text → List Text
runs p [] = []
runs p (c ∷ s) =
    let rest = runs p s in
    if p c then (if begins p s then onto_first c rest else (c ∷ []) ∷ rest) else rest

-- " ".join(words)
unfoldable pub join : List Text → Text
join [] = []
join (w ∷ []) = w
join (w ∷ v ∷ ws) = w ++ 32 ∷ join (v ∷ ws)

-- `casefold`
unfoldable pub casefold : (ℕ → Text) → Text → Text
casefold fold [] = []
casefold fold (c ∷ s) = fold c ++ casefold fold s

unfoldable pub split : Text → List Text
unfolding runs is_space
split = runs (λ c. not (is_space c))

unfoldable pub normalize_label : (ℕ → Text) → Text → Text
unfolding casefold split join
normalize_label fold label = join (split (casefold fold label))

-- `not label.strip()`, `not body.name.strip()`
unfoldable pub is_blank : Text → Bool
unfolding is_space
is_blank [] = true
is_blank (c ∷ s) = is_space c && is_blank s

unfoldable pub strip_left : Text → Text
unfolding is_space
strip_left [] = []
strip_left (c ∷ s) = if is_space c then strip_left s else c ∷ s

unfoldable pub strip_right : Text → Text
unfolding is_blank
strip_right [] = []
strip_right (c ∷ s) = if is_blank (c ∷ s) then [] else c ∷ strip_right s

unfoldable pub strip : Text → Text
unfolding strip_left strip_right
strip s = strip_right (strip_left s)

is_lower : ℕ → Bool
is_lower c = leb 97 c && leb c 122

abbrev pub text_eq : Text → Text → Bool
text_eq [] [] = true
text_eq (c ∷ s) (d ∷ t) = (c == d) && text_eq s t
text_eq _ _ = false

abbrev pub is_in : Text → List Text → Bool
is_in w [] = false
is_in w (v ∷ vs) = text_eq w v || is_in w vs

-- b'…' is a list of one number: the words are spelled by code points.
abbrev paypal : Text
paypal = 112 ∷ 97 ∷ 121 ∷ 112 ∷ 97 ∷ 108 ∷ []

abbrev processor_words : List Text
processor_words =
    paypal
    ∷ (101 ∷ 117 ∷ 114 ∷ 111 ∷ 112 ∷ 101 ∷ [])
    ∷ (115 ∷ [])
    ∷ (97 ∷ [])
    ∷ (114 ∷ [])
    ∷ (108 ∷ [])
    ∷ (101 ∷ 116 ∷ [])
    ∷ (99 ∷ 105 ∷ 101 ∷ [])
    ∷ (115 ∷ 99 ∷ 97 ∷ [])
    ∷ (99 ∷ [])
    ∷ (112 ∷ 97 ∷ 121 ∷ 109 ∷ 101 ∷ 110 ∷ 116 ∷ [])
    ∷ (112 ∷ 97 ∷ 121 ∷ 109 ∷ 101 ∷ 110 ∷ 116 ∷ 115 ∷ [])
    ∷ []

abbrev all_in : List Text → List Text → Bool
all_in [] vs = true
all_in (w ∷ ws) vs = is_in w vs && all_in ws vs

unfoldable pub processor_only_label : (ℕ → Text) → Text → Bool
unfolding normalize_label runs is_lower
processor_only_label fold label =
    let words = runs is_lower (normalize_label fold label) in
    is_in paypal words && all_in words processor_words
