-- ===== src/Seeding/Wrap.antt =====
-- `wrapText`: the lines of a text for a given width.
use mathlib.Core.List.{append-nil}
use cvranking.Prelude.{
  ℕ, ◌≤◌, ◌≡◌, refl, ap, ◌∙◌, ◌⊎◌, inl, inr, Bool, true, false, ◌&&◌, Bool-cases, List, [], ◌∷◌,
  ◌++◌, arith, ltb, length, All, flat_map,
}
use cvranking.Js.Text.{Text, truthy}
use cvranking.Js.Text.Words.{words, words-append, words_of_word, words-IsWord, IsWord}

-- The word behind the current line.
unfoldable pub longer : Text → Text → Text
longer [] word = word
longer (c ∷ s) word = (c ∷ s) ++ 32 ∷ word

-- The last line, unless nothing is left for it.
unfoldable pub last_line : Text → List Text
last_line [] = []
last_line (c ∷ s) = (c ∷ s) ∷ []

-- `next.length > width && current`.
unfoldable pub too_wide : (width : ℕ) → Text → Text → Bool
too_wide width current word = ltb width (length (longer current word)) && truthy current

-- The lines of the words that are left, behind the current line.
unfoldable pub wrap_words : (width : ℕ) → Text → List Text → List Text
wrap_words width current [] = last_line current
wrap_words width current (word ∷ rest) = elim (too_wide width current word) [
  | true ↦ current ∷ wrap_words width word rest
  | false ↦ wrap_words width (longer current word) rest
]

unfoldable pub wrap_text : Text → ℕ → List Text
wrap_text value width = wrap_words width [] (words value)

words-longer :
    (current word : Text) → IsWord word → words (longer current word) ≡ words current ++ word ∷ []
unfolding longer
words-longer [] word h = unfold words in words_of_word word h
words-longer (c ∷ s) word h =
    words-append (c ∷ s) word ∙ ap (λ ws. words (c ∷ s) ++ ws) (words_of_word word h)

words-wrap_words :
    (width : ℕ) (current : Text) (rest : List Text)
    → All IsWord rest
    → flat_map words (wrap_words width current rest) ≡ words current ++ rest
unfolding wrap_words last_line words
words-wrap_words width [] [] h = refl
words-wrap_words width (c ∷ s) [] h = refl
words-wrap_words width current (word ∷ rest) (hw, h) =
    elim (Bool-cases (too_wide width current word)) [
      | inl e ↦ rw (e, wrap_words, words-wrap_words width word rest h, words_of_word word hw) refl
      | inr e ↦
          rw
            (
              e,
              wrap_words,
              words-wrap_words width (longer current word) rest h,
              words-longer current word hw,
            )
            (mathlib.Core.List.append_assoc (words current) (word ∷ []) rest)
    ]

-- A line fits, or it is one word.
abbrev pub Fits : ℕ → Text → Type 0
Fits width line = (length line ≤ width) ⊎ IsWord line

longer-Fits :
    (width : ℕ) (current word : Text)
    → IsWord word
    → too_wide width current word ≡ false
    → Fits width (longer current word)
unfolding longer too_wide
longer-Fits width [] word h e = inr h
longer-Fits width (c ∷ s) word h e = inl (ground arith)

wrap_words-Fits :
    (width : ℕ) (current : Text) (rest : List Text)
    → Fits width current
    → All IsWord rest
    → All (Fits width) (wrap_words width current rest)
unfolding wrap_words last_line
wrap_words-Fits width [] [] f h = tt
wrap_words-Fits width (c ∷ s) [] f h = (f, tt)
wrap_words-Fits width current (word ∷ rest) f (hw, h) =
    elim (Bool-cases (too_wide width current word)) [
      | inl e ↦ rw (e, wrap_words) (f, wrap_words-Fits width word rest (inr hw) h)
      | inr e ↦
          rw (e, wrap_words)
            (wrap_words-Fits width (longer current word) rest (longer-Fits width current word hw e)
              h)
    ]

-- The lines hold the words of the text in their order, and a line that is wider than asked for is a
-- single word.
pub wrap_text-words :
    (value : Text) (width : ℕ)
    → (flat_map words (wrap_text value width) ≡ words value)
      × All (Fits width) (wrap_text value width)
unfolding wrap_text words
wrap_text-words value width = (
  words-wrap_words width [] (words value) (words-IsWord value),
  wrap_words-Fits width [] (words value) (inl (omega arith)) (words-IsWord value),
)
