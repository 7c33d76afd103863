-- ===== src/Js/Text/Words.antt =====
-- Runs of white space and the words between them.
use cvranking.Prelude.{
  ℕ, ◌≡◌, ◌≢◌, refl, inl, inr, Bool, true, false, not, Bool-cases, List, [], ◌∷◌, ◌++◌, arith,
  if◌then◌else◌, All,
}
use cvranking.Js.Text.{Text, is_space}

-- The space that a run of white space becomes, in front of what is left.
unfoldable pub one_space : Text → Text
one_space [] = 32 ∷ []
one_space (c ∷ s) = if is_space c then c ∷ s else 32 ∷ c ∷ s

-- `replace(/\s+/g, " ")`.
unfoldable pub collapse_spaces : Text → Text
collapse_spaces [] = []
collapse_spaces (c ∷ s) =
    let rest = collapse_spaces s in if is_space c then one_space rest else c ∷ rest

abbrev pub starts_word : Text → Bool
starts_word [] = false
starts_word (c ∷ s) = not (is_space c)

-- A unit in front of words, the first of which it belongs to or not.
unfoldable pub add_unit : ℕ → Bool → List Text → List Text
add_unit c true (word ∷ words) = (c ∷ word) ∷ words
add_unit c _ words = (c ∷ []) ∷ words

-- `split(/\s+/).filter(Boolean)`: the longest parts without white space.
unfoldable pub words : Text → List Text
words [] = []
words (c ∷ s) = let rest = words s in if is_space c then rest else add_unit c (starts_word s) rest

abbrev pub IsWord : Text → Type 0
IsWord w = (w ≢ []) × All (λ c. is_space c ≡ false) w

words_start : (s : Text) → starts_word s ≡ true → (w : Text) × (ws : List Text) × (words s ≡ w ∷ ws)
unfolding words add_unit
words_start [] h = cc h
words_start (c ∷ s) h = elim (Bool-cases (starts_word s)) [
  | inl e ↦
      let (w, ws, f) = words_start s e in
      let word : is_space c ≡ false = ground arith in rw (word, e, f) ((c ∷ w), ws, refl)
  | inr e ↦ let word : is_space c ≡ false = ground arith in rw (word, e) ((c ∷ []), words s, refl)
]

add_unit-append :
    (c : ℕ) (s : Text) (ws : List Text)
    → add_unit c (starts_word s) (words s ++ ws) ≡ add_unit c (starts_word s) (words s) ++ ws
unfolding add_unit
add_unit-append c s ws = elim (Bool-cases (starts_word s)) [
  | inl e ↦ let (w, rest, f) = words_start s e in rw (e, f) refl
  | inr e ↦ rw e refl
]

space_is : is_space 32 ≡ true
unfolding is_space
space_is = refl

starts_word-append : (s t : Text) → starts_word (s ++ 32 ∷ t) ≡ starts_word s
starts_word-append [] t = rw space_is refl
starts_word-append (c ∷ s) t = refl

-- A space parts the words on its two sides.
pub words-append : (s t : Text) → words (s ++ 32 ∷ t) ≡ words s ++ words t
unfolding words
words-append [] t = rw space_is refl
words-append (c ∷ s) t = elim (Bool-cases (is_space c)) [
  | inl e ↦ rw e (words-append s t)
  | inr e ↦ rw (e, words-append s t, starts_word-append s t) (add_unit-append c s (words t))
]

pub words_of_word : (w : Text) → IsWord w → words w ≡ w ∷ []
unfolding words add_unit
words_of_word [] (h, _) = absurd (h refl)
words_of_word (c ∷ []) (_, (e, _)) = rw e refl
words_of_word (c ∷ d ∷ s) (_, (e, (f, k))) =
    rw (e, words_of_word (d ∷ s) ((λ g. cc g), (f, k)), f) refl

add_unit-IsWord :
    (c : ℕ) (joined : Bool) (ws : List Text)
    → is_space c ≡ false
    → All IsWord ws
    → All IsWord (add_unit c joined ws)
unfolding add_unit
add_unit-IsWord c true [] e h = ((λ f. cc f, (e, tt)), tt)
add_unit-IsWord c false ws e h = ((λ f. cc f, (e, tt)), h)
add_unit-IsWord c true (w ∷ ws) e ((_, k), h) = ((λ f. cc f, (e, k)), h)

pub words-IsWord : (s : Text) → All IsWord (words s)
unfolding words
words-IsWord [] = tt
words-IsWord (c ∷ s) = elim (Bool-cases (is_space c)) [
  | inl e ↦ rw e (words-IsWord s)
  | inr e ↦ rw e (add_unit-IsWord c (starts_word s) (words s) e (words-IsWord s))
]
