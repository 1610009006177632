-- ===== src/Diagnostics/Texts.antt =====
-- What host/src/diagnostics.rs uses of the standard library's texts; a text is the list of its
-- characters.
use ord.Prelude.{
  ℕ, zero, suc, List, [], ◌∷◌, ◌++◌, Bool, true, false, ◌||◌, ◌&&◌, Option, none, some, ◌==◌, leb,
  if◌then◌else◌,
}
use Prim.Native.Char.{code}
use Prim.Native.String.{String}

abbrev pub Text : Type 0
Text = List ℕ

abbrev pub codes : String → Text
codes String.[] = []
codes (String.◌∷◌ c s) = code c ∷ codes s

-- `char::is_whitespace`
abbrev pub is_whitespace : ℕ → Bool
is_whitespace c =
    leb 9 c && leb c 13
    || c == 32
    || c == 0x85
    || c == 0xA0
    || c == 0x1680
    || leb 0x2000 c && leb c 0x200A
    || c == 0x2028
    || c == 0x2029
    || c == 0x202F
    || c == 0x205F
    || c == 0x3000

abbrev pub is_empty : Text → Bool
is_empty [] = true
is_empty (c ∷ cs) = false

abbrev pub same_text : Text → Text → Bool
same_text [] [] = true
same_text (x ∷ xs) (y ∷ ys) = x == y && same_text xs ys
same_text _ _ = false

-- What follows the prefix.
abbrev pub strip_prefix : Text → Text → Option Text
strip_prefix [] text = some text
strip_prefix (p ∷ ps) [] = none
strip_prefix (p ∷ ps) (c ∷ cs) = let rest = strip_prefix ps cs in if p == c then rest else none

abbrev pub is_some : Option Text → Bool
is_some none = false
is_some (some t) = true

abbrev pub contains_text : Text → Text → Bool
contains_text needle [] = is_empty needle
contains_text needle (c ∷ cs) = is_some (strip_prefix needle (c ∷ cs)) || contains_text needle cs

abbrev pub trim_start : (ℕ → Bool) → Text → Text
trim_start cut [] = []
trim_start cut (c ∷ cs) = let rest = trim_start cut cs in if cut c then rest else c ∷ cs

abbrev pub trim_end : (ℕ → Bool) → Text → Text
trim_end cut [] = []
trim_end cut (c ∷ cs) =
    let rest = trim_end cut cs in if cut c && is_empty rest then [] else c ∷ rest

abbrev pub trim : Text → Text
trim text = trim_end is_whitespace (trim_start is_whitespace text)

-- The carriage return of a line's end.
abbrev strip_cr : Text → Text
strip_cr [] = []
strip_cr (c ∷ []) = if c == 13 then [] else c ∷ []
strip_cr (c ∷ d ∷ cs) = c ∷ strip_cr (d ∷ cs)

abbrev last_line : Text → List Text
last_line [] = []
last_line (c ∷ cs) = (c ∷ cs) ∷ []

abbrev lines_from : Text → Text → List Text
lines_from line [] = last_line line
lines_from line (c ∷ cs) =
    let next = lines_from [] cs in
    let same = lines_from (line ++ c ∷ []) cs in if c == 10 then strip_cr line ∷ next else same

abbrev pub lines : Text → List Text
lines text = lines_from [] text

abbrev words_from : Text → Text → List Text
words_from word [] = last_line word
words_from word (c ∷ cs) =
    let next = words_from [] cs in
    let same = words_from (word ++ c ∷ []) cs in
    if is_whitespace c then last_line word ++ next else same

-- `split_whitespace`
abbrev pub words : Text → List Text
words text = words_from [] text

-- `split(c).next()`, which is never `None`
abbrev pub before : ℕ → Text → Text
before c [] = []
before c (x ∷ xs) = let rest = before c xs in if x == c then [] else x ∷ rest

abbrev pub join : Text → List Text → Text
join sep [] = []
join sep (t ∷ []) = t
join sep (t ∷ u ∷ ts) = t ++ sep ++ join sep (u ∷ ts)

-- `{:<16}`: blanks up to the width
abbrev pub pad : ℕ → Text → Text
pad zero text = text
pad (suc n) [] = 32 ∷ pad n []
pad (suc n) (c ∷ cs) = c ∷ pad n cs
