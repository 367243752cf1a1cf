-- ===== src/HireShield/Covering.antt =====
-- The note that src/hire-shield.js chooses.
use j41_sovagent_dispatcher.Prelude.{
  ℕ, ℤ, pos, negsuc, ◌≤ℤ◌, ◌<ℤ◌, Number, finite, Option, none, some, List, [], ◌∷◌, ◌≡◌, ◌⊎◌, refl,
  sym, subst, Option-cases, arith, false, inl, inr,
}
use j41_sovagent_dispatcher.HireShield.{
  Note, Candidate, safe_int, candidate_of, is_better, select_from, select_covering_note,
}
use j41_sovagent_dispatcher.HireShield.Choice.{
  Beats, BeatsAll, IsOf, ComesFrom, select-right, select-cases,
}

-- The number is a safe integer of JavaScript, and which one.
abbrev pub IsSafe : Number → ℤ → Type 0
IsSafe x z = (x ≡ finite z) × (negsuc 9_007_199_254_740_990 ≤ℤ z) × (z ≤ℤ pos 9_007_199_254_740_991)

-- The note has this value and this height, and covers the need.
pub record Offers (need : ℤ) (note : Note) (value height : ℤ) : Type 0 where
  pub safe_value : IsSafe note.value_sats value
  pub safe_height : IsSafe note.height height
  pub enough : need ≤ℤ value

abbrev pub IsIn : Note → List (Option Note) → Type 0
IsIn note [] = ⊥
IsIn note (n ∷ notes) = (n ≡ some note) ⊎ IsIn note notes

-- What is chosen is one of the notes, with its value and its height.
abbrev pub IsChosen : ℤ → List (Option Note) → Option Candidate → Type 0
IsChosen need notes none = Unit
IsChosen need notes (some c) = IsIn c.note notes × Offers need c.note c.value c.block

-- A note is chosen, and this value and height are larger, or the value is the same and the height not lower.
abbrev pub NotWorse : Option Candidate → ℤ → ℤ → Type 0
NotWorse none value height = ⊥
NotWorse (some c) value height = (c.value <ℤ value) ⊎ ((c.value ≡ value) × (c.block ≤ℤ height))

safe_int-IsSafe : (x : Number) (z : ℤ) → safe_int x ≡ some z → IsSafe x z
safe_int-IsSafe (finite (pos n)) z h = ground arith
safe_int-IsSafe (finite (negsuc n)) z h = ground arith
safe_int-IsSafe _ z h = absurd (cc h)

IsSafe-safe_int : (x : Number) (z : ℤ) → IsSafe x z → safe_int x ≡ some z
IsSafe-safe_int x (pos n) (e, low, high) = rw e (ground arith)
IsSafe-safe_int x (negsuc n) (e, low, high) = rw e (ground arith)

candidate_of-some :
    (need : ℤ) (note : Note) (value height : ℤ)
    → Offers need note value height
    → candidate_of need (some note) ≡ some (record { note = note; value = value; block = height })
unfolding candidate_of
candidate_of-some need note value height o = ground (
  arith,
  IsSafe-safe_int note.value_sats value o.safe_value,
  IsSafe-safe_int note.height height o.safe_height,
  o.enough,
)

candidate_of-cases :
    (need : ℤ) (note : Note) (c : Candidate)
    → candidate_of need (some note) ≡ some c
    → (value height : ℤ) × (safe_int note.value_sats ≡ some value)
      × (safe_int note.height ≡ some height)
      × (need ≤ℤ value)
      × (record { note = note; value = value; block = height } ≡ c)
unfolding candidate_of
candidate_of-cases need note c h = elim (Option-cases (safe_int note.value_sats)) [
  | inl e ↦ absurd (ground (arith, e, h))
  | inr (value, e) ↦ elim (Option-cases (safe_int note.height)) [
    | inl f ↦ absurd (ground (arith, e, f, h))
    | inr (height, f) ↦ (value, height, e, f, ground (arith, e, f, h), ground (arith, e, f, h))
  ]
]

candidate_of-Offers :
    (need : ℤ) (n : Option Note) (c : Candidate)
    → candidate_of need n ≡ some c
    → (n ≡ some c.note) × Offers need c.note c.value c.block
unfolding candidate_of
candidate_of-Offers need none c h = absurd (cc h)
candidate_of-Offers need (some note) c h =
    let (value, height, e, f, fits, same) = candidate_of-cases need note c h in
    subst (λ d. (some note ≡ some d.note) × Offers need d.note d.value d.block) same
      (
        refl,
        record {
          safe_value = safe_int-IsSafe note.value_sats value e;
          safe_height = safe_int-IsSafe note.height height f;
          enough = fits;
        },
      )

IsOf-IsIn :
    (need : ℤ) (notes : List (Option Note)) (c : Candidate)
    → IsOf need notes c
    → IsIn c.note notes × Offers need c.note c.value c.block
IsOf-IsIn need [] c h = absurd h
IsOf-IsIn need (n ∷ notes) c (inl e) =
    let (here, offers) = candidate_of-Offers need n c e in (inl here, offers)
IsOf-IsIn need (n ∷ notes) c (inr rest) =
    let (there, offers) = IsOf-IsIn need notes c rest in (inr there, offers)

ComesFrom-IsChosen :
    (need : ℤ) (notes : List (Option Note)) (r : Option Candidate)
    → ComesFrom need notes r
    → IsChosen need notes r
ComesFrom-IsChosen need notes none h = tt
ComesFrom-IsChosen need notes (some c) (of, fits) = IsOf-IsIn need notes c of

not_better :
    (c : Candidate) (note : Note) (value height : ℤ)
    → is_better (record { note = note; value = value; block = height }) c ≡ false
    → (c.value <ℤ value) ⊎ ((c.value ≡ value) × (c.block ≤ℤ height))
not_better c note value height h = ground (arith, h)

Beats-NotWorse :
    (need : ℤ) (r : Option Candidate) (note : Note) (value height : ℤ)
    → Offers need note value height
    → Beats r (candidate_of need (some note))
    → NotWorse r value height
Beats-NotWorse need none note value height o b =
    absurd (subst (Beats none) (candidate_of-some need note value height o) b)
Beats-NotWorse need (some c) note value height o b =
    not_better c note value height
      (subst (Beats (some c)) (candidate_of-some need note value height o) b)

BeatsAll-NotWorse :
    (need : ℤ) (r : Option Candidate) (notes : List (Option Note)) (note : Note) (value height : ℤ)
    → BeatsAll need r notes
    → IsIn note notes
    → Offers need note value height
    → NotWorse r value height
BeatsAll-NotWorse need r [] note value height bs here o = absurd here
BeatsAll-NotWorse need r (n ∷ notes) note value height (b, bs) (inl e) o =
    Beats-NotWorse need r note value height o (subst (λ m. Beats r (candidate_of need m)) e b)
BeatsAll-NotWorse need r (n ∷ notes) note value height (b, bs) (inr rest) o =
    BeatsAll-NotWorse need r notes note value height bs rest o

-- The note that is chosen is one of the list whose value and height are safe integers and whose value covers the need,
-- and every such note of the list has a larger value, or the same value at a height that is not lower. One is
-- chosen wherever the list has such a note.
pub select_covering_note-best :
    (notes : List (Option Note)) (need : ℕ)
    → let result = select_covering_note notes need in
      IsChosen (pos need) notes result
      × ((note : Note) (value height : ℤ)
          → IsIn note notes
          → Offers (pos need) note value height
          → NotWorse result value height)
unfolding select_covering_note
select_covering_note-best notes need = (
  ComesFrom-IsChosen (pos need) notes (select_from (pos need) none notes)
      (elim (select-cases (pos need) none notes) [
        | inl e ↦ subst (ComesFrom (pos need) notes) (sym e) tt
        | inr from ↦ from
      ]),
  λ note value height here offers.
      BeatsAll-NotWorse (pos need) (select_from (pos need) none notes) notes note value height
        (select-right (pos need) none notes) here offers,
)
