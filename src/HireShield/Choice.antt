-- ===== src/HireShield/Choice.antt =====
-- The loop of src/hire-shield.js that keeps the better of two notes.
use j41_sovagent_dispatcher.Prelude.{
  ℤ, ◌≤ℤ◌, Option, none, some, List, [], ◌∷◌, ◌≡◌, ◌⊎◌, refl, sym, subst, ◌∙◌, Option-cases, arith,
  true, false, inl, inr,
}
use j41_sovagent_dispatcher.HireShield.{
  Note, Candidate, candidate_of, is_better, keep_better, select_from,
}

-- The candidate is there, and no better one takes its place.
abbrev pub Beats : Option Candidate → Option Candidate → Type 0
Beats none none = Unit
Beats none (some c) = ⊥
Beats (some best) none = Unit
Beats (some best) (some c) = is_better c best ≡ false

abbrev pub BeatsAll : ℤ → Option Candidate → List (Option Note) → Type 0
BeatsAll need best [] = Unit
BeatsAll need best (n ∷ notes) = Beats best (candidate_of need n) × BeatsAll need best notes

keep_better-cases :
    (best c : Candidate)
    → ((keep_better (some best) (some c) ≡ some c) × (is_better c best ≡ true))
      ⊎ ((keep_better (some best) (some c) ≡ some best) × (is_better c best ≡ false))
keep_better-cases best c = ground arith

keep_better-left : (best c : Option Candidate) → Beats (keep_better best c) best
keep_better-left none none = tt
keep_better-left none (some c) = tt
keep_better-left (some best) none = ground arith
keep_better-left (some best) (some c) = elim (keep_better-cases best c) [
  | inl (e, h) ↦ rw e (ground arith)
  | inr (e, h) ↦ rw e (ground arith)
]

keep_better-right : (best c : Option Candidate) → Beats (keep_better best c) c
keep_better-right none none = tt
keep_better-right none (some c) = ground arith
keep_better-right (some best) none = tt
keep_better-right (some best) (some c) = elim (keep_better-cases best c) [
  | inl (e, h) ↦ rw e (ground arith)
  | inr (e, h) ↦ rw e h
]

trans : (a b c : Option Candidate) → Beats a b → Beats b c → Beats a c
trans none none c h k = k
trans none (some b) c h k = absurd h
trans (some a) none none h k = tt
trans (some a) none (some c) h k = absurd k
trans (some a) (some b) none h k = tt
trans (some a) (some b) (some c) h k = ground arith

Beats-refl : (best : Option Candidate) → Beats best best
Beats-refl none = tt
Beats-refl (some best) = ground arith

select-left :
    (need : ℤ) (best : Option Candidate) (notes : List (Option Note))
    → Beats (select_from need best notes) best
unfolding select_from
select-left need best [] = Beats-refl best
select-left need best (n ∷ notes) =
    let next = keep_better best (candidate_of need n) in
    trans (select_from need next notes) next best (select-left need next notes)
      (keep_better-left best (candidate_of need n))

pub select-right :
    (need : ℤ) (best : Option Candidate) (notes : List (Option Note))
    → BeatsAll need (select_from need best notes) notes
unfolding select_from
select-right need best [] = tt
select-right need best (n ∷ notes) =
    let next = keep_better best (candidate_of need n) in
    (
      trans (select_from need next notes) next (candidate_of need n) (select-left need next notes)
          (keep_better-right best (candidate_of need n)),
      select-right need next notes,
    )

-- The candidate is a usable note of the list.
abbrev pub IsOf : ℤ → List (Option Note) → Candidate → Type 0
IsOf need [] c = ⊥
IsOf need (n ∷ notes) c = (candidate_of need n ≡ some c) ⊎ IsOf need notes c

abbrev pub ComesFrom : ℤ → List (Option Note) → Option Candidate → Type 0
ComesFrom need notes none = Unit
ComesFrom need notes (some c) = IsOf need notes c × (need ≤ℤ c.value)

covers :
    (need : ℤ) (n : Option Note) (c : Candidate) → candidate_of need n ≡ some c → need ≤ℤ c.value
unfolding candidate_of
covers need none c h = ground arith
covers need (some note) c h = ground arith

weaken :
    (need : ℤ) (n : Option Note) (notes : List (Option Note)) (r : Option Candidate)
    → ComesFrom need notes r
    → ComesFrom need (n ∷ notes) r
weaken need n notes none h = tt
weaken need n notes (some c) (of, fits) = (inr of, fits)

first :
    (need : ℤ) (n : Option Note) (notes : List (Option Note))
    → ComesFrom need (n ∷ notes) (candidate_of need n)
first need n notes = elim (Option-cases (candidate_of need n)) [
  | inl e ↦ subst (ComesFrom need (n ∷ notes)) (sym e) tt
  | inr (c, e) ↦ subst (ComesFrom need (n ∷ notes)) (sym e) (inl e, covers need n c e)
]

keeps_one : (best c : Option Candidate) → (keep_better best c ≡ best) ⊎ (keep_better best c ≡ c)
keeps_one best none = inl (ground arith)
keeps_one none (some c) = inr refl
keeps_one (some best) (some c) = ground arith

pub select-cases :
    (need : ℤ) (best : Option Candidate) (notes : List (Option Note))
    → (select_from need best notes ≡ best) ⊎ ComesFrom need notes (select_from need best notes)
unfolding select_from
select-cases need best [] = inl refl
select-cases need best (n ∷ notes) =
    let next = keep_better best (candidate_of need n) in
    elim (select-cases need next notes) [
      | inr from ↦ inr (weaken need n notes (select_from need next notes) from)
      | inl e ↦ elim (keeps_one best (candidate_of need n)) [
        | inl k ↦ inl (e ∙ k)
        | inr k ↦ inr (subst (ComesFrom need (n ∷ notes)) (sym (e ∙ k)) (first need n notes))
      ]
    ]
