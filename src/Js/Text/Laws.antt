-- ===== src/Js/Text/Laws.antt =====
-- `trim`, `split` and `join`.
use mathlib.Core.List.{append-nil}
use cvranking.Prelude.{
  ℕ, ◌≡◌, ◌≢◌, ◌⊎◌, inl, inr, refl, sym, ap, false, List, [], ◌∷◌, ◌++◌, arith, ◌==◌, All,
  Bool-cases, flat_map,
}
use cvranking.Js.Text.{drop_cr, drop_crs, split_lines}
use cvranking.Js.Text.{Text, is_space, trim_start, trim_end, trim, split_step, split, join}

trim_start-eq_self : (c : ℕ) (s : Text) → is_space c ≡ false → trim_start (c ∷ s) ≡ c ∷ s
unfolding trim_start
trim_start-eq_self c s h = rw h

trim_end-cons : (c : ℕ) (s : Text) → is_space c ≡ false → trim_end (c ∷ s) ≡ c ∷ trim_end s
unfolding trim_end
trim_end-cons c s h = rw h

trim_end_idem : (s : Text) → trim_end (trim_end s) ≡ trim_end s
unfolding trim_end
trim_end_idem [] = refl
trim_end_idem (c ∷ s) = ground (arith, trim_end_idem s)

trim_start-cases :
    (s : Text)
    → (trim_start s ≡ []) ⊎ ((c : ℕ) × (t : Text) × (trim_start s ≡ c ∷ t) × (is_space c ≡ false))
unfolding trim_start
trim_start-cases [] = inl refl
trim_start-cases (c ∷ s) = elim (Bool-cases (is_space c)) [
  | inl space ↦ rw space (trim_start-cases s)
  | inr other ↦ inr (c, s, rw other, other)
]

pub trim_idem : (s : Text) → trim (trim s) ≡ trim s
unfolding trim
trim_idem s = elim (trim_start-cases s) [
  | inl blank ↦ rw blank (unfold trim_start trim_end in refl)
  | inr (c, t, e, other) ↦
      rw (e, trim_end-cons c t other)
        (rw (trim_start-eq_self c (trim_end t) other, trim_end-cons c (trim_end t) other)
          (ap (◌∷◌ c) (trim_end_idem t)))
]

abbrev IsCons : List Text → Type 0
IsCons ps = (p : Text) × (rest : List Text) × (ps ≡ p ∷ rest)

split_step-IsCons : (sep c : ℕ) (ps : List Text) → IsCons (split_step sep c ps)
unfolding split_step
split_step-IsCons sep c [] = ([], [], refl)
split_step-IsCons sep c (p ∷ ps) = elim (Bool-cases (c == sep)) [
  | inl e ↦ ([], p ∷ ps, rw e)
  | inr e ↦ (c ∷ p, ps, rw e)
]

split-IsCons : (sep : ℕ) (s : Text) → IsCons (split sep s)
unfolding split
split-IsCons sep [] = ([], [], refl)
split-IsCons sep (c ∷ s) = split_step-IsCons sep c (split sep s)

split_step-append :
    (sep c : ℕ) (ps qs : List Text)
    → IsCons ps
    → split_step sep c (ps ++ qs) ≡ split_step sep c ps ++ qs
unfolding split_step
split_step-append sep c [] qs (p, ps, e) = cc
split_step-append sep c (p ∷ ps) qs h = ground arith

split_step_self : (sep : ℕ) (ps : List Text) → IsCons ps → split_step sep sep ps ≡ [] ∷ ps
unfolding split_step
split_step_self sep [] (p, ps, e) = cc
split_step_self sep (p ∷ ps) h = ground arith

-- Text on both sides of a separator is split into the parts of both.
pub split-append : (sep : ℕ) (s t : Text) → split sep (s ++ sep ∷ t) ≡ split sep s ++ split sep t
unfolding split
split-append sep [] t = split_step_self sep (split sep t) (split-IsCons sep t)
split-append sep (c ∷ s) t =
    rw (split-append sep s t)
      (split_step-append sep c (split sep s) (split sep t) (split-IsCons sep s))

pub split-join :
    (sep : ℕ) (s : Text) (rest : List Text)
    → split sep (join (sep ∷ []) (s ∷ rest)) ≡ flat_map (split sep) (s ∷ rest)
unfolding join
split-join sep s [] = sym (append-nil _)
split-join sep s (t ∷ rest) =
    rw (split-append sep s (join (sep ∷ []) (t ∷ rest)))
      (ap (λ ps. split sep s ++ ps) (split-join sep t rest))

abbrev pub Avoids : ℕ → Text → Type 0
Avoids sep part = All (λ c. c ≢ sep) part

split_step-Avoids :
    (sep c : ℕ) (ps : List Text) → All (Avoids sep) ps → All (Avoids sep) (split_step sep c ps)
unfolding split_step
split_step-Avoids sep c [] h = (tt, tt)
split_step-Avoids sep c (p ∷ ps) (h, k) = elim (Bool-cases (c == sep)) [
  | inl e ↦ rw e (tt, (h, k))
  | inr e ↦ rw e ((ground arith, h), k)
]

-- No part holds the separator.
pub split-Avoids : (sep : ℕ) (s : Text) → All (Avoids sep) (split sep s)
unfolding split
split-Avoids sep [] = (tt, tt)
split-Avoids sep (c ∷ s) = split_step-Avoids sep c (split sep s) (split-Avoids sep s)

module _ (P : ℕ → Type 0) where
  trim_start-All : (s : Text) → All P s → All P (trim_start s)
  unfolding trim_start
  trim_start-All [] h = tt
  trim_start-All (c ∷ s) (p, h) = ground (arith, trim_start-All s h)

  trim_end-All : (s : Text) → All P s → All P (trim_end s)
  unfolding trim_end
  trim_end-All [] h = tt
  trim_end-All (c ∷ s) (p, h) = ground (arith, trim_end-All s h)

  pub trim-All : (s : Text) → All P s → All P (trim s)
  unfolding trim
  trim-All s h = trim_end-All (trim_start s) (trim_start-All s h)

  split_step-All :
      (sep c : ℕ) (ps : List Text) → P c → All (All P) ps → All (All P) (split_step sep c ps)
  unfolding split_step
  split_step-All sep c [] p h = (tt, tt)
  split_step-All sep c (part ∷ parts) p (h, hs) = elim (Bool-cases (c == sep)) [
    | inl e ↦ rw e (tt, (h, hs))
    | inr e ↦ rw e ((p, h), hs)
  ]

  split-All : (sep : ℕ) (s : Text) → All P s → All (All P) (split sep s)
  unfolding split
  split-All sep [] h = (tt, tt)
  split-All sep (c ∷ s) (p, h) = split_step-All sep c (split sep s) p (split-All sep s h)

  drop_cr-All : (s : Text) → All P s → All P (drop_cr s)
  unfolding drop_cr
  drop_cr-All [] h = tt
  drop_cr-All (c ∷ []) (p, h) = elim (Bool-cases (c == 13)) [
    | inl e ↦ rw e tt
    | inr e ↦ rw e (p, tt)
  ]
  drop_cr-All (c ∷ d ∷ s) (p, h) = (p, drop_cr-All (d ∷ s) h)

  drop_crs-All : (ps : List Text) → All (All P) ps → All (All P) (drop_crs ps)
  unfolding drop_crs
  drop_crs-All [] h = tt
  drop_crs-All (last ∷ []) h = h
  drop_crs-All (part ∷ next ∷ parts) (p, h) = (drop_cr-All part p, drop_crs-All (next ∷ parts) h)

  -- The lines of a text have what all its units have.
  pub split_lines-All : (s : Text) → All P s → All (All P) (split_lines s)
  unfolding split_lines
  split_lines-All s h = drop_crs-All (split 10 s) (split-All 10 s h)
