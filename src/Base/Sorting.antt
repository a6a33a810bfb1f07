-- ===== src/Base/Sorting.antt =====
-- `ORDER BY`: a stable insertion sort, and what it promises.
use mathlib.Core.List.{Perm}
use mathlib.Core.List.Perm
use mathlib.Core.Path.{◌≡◌, refl}
use mathlib.Core.Logic.{inl, inr}
use mathlib.Core.Bool.{Bool, true, false}
use mathlib.Core.List.{List, [], ◌∷◌}
use ach_orchestrator.Base.Tests.{if◌then◌else◌, Bool-cases}
use ach_orchestrator.Base.Lists.{All}

module _ {A : Type 0} (le : A → A → Bool) where
  -- An element before the first one that it may stand before.
  unfoldable pub insert_by : A → List A → List A
  insert_by a [] = a ∷ []
  insert_by a (b ∷ bs) = let rest = insert_by a bs in if le a b then a ∷ b ∷ bs else b ∷ rest

  unfoldable pub sort_by : List A → List A
  unfolding insert_by
  sort_by [] = []
  sort_by (a ∷ l) = insert_by a (sort_by l)

  abbrev pub IsSorted : List A → Type 0
  IsSorted [] = Unit {0}
  IsSorted (a ∷ l) = All (λ b. le a b ≡ true) l × IsSorted l

  insert_by-Perm : (a : A) (bs : List A) → Perm (insert_by a bs) (a ∷ bs)
  unfolding insert_by
  insert_by-Perm a [] = Perm.refl (a ∷ [])
  insert_by-Perm a (b ∷ bs) = elim (Bool-cases (le a b)) [
    | inl before ↦ rw before (Perm.refl (a ∷ b ∷ bs))
    | inr after ↦ rw after (Perm.trans (Perm.cons b (insert_by-Perm a bs)) (Perm.swap a b bs))
  ]

  pub sort_by-Perm : (l : List A) → Perm (sort_by l) l
  unfolding sort_by
  sort_by-Perm [] = Perm.refl []
  sort_by-Perm (a ∷ l) = Perm.trans (insert_by-Perm a (sort_by l)) (Perm.cons a (sort_by-Perm l))

  -- A list in order stays l it is.
  pub sort_by-IsSorted_same : (l : List A) → IsSorted l → sort_by l ≡ l
  unfolding sort_by insert_by
  sort_by-IsSorted_same [] h = refl
  sort_by-IsSorted_same (a ∷ []) h = refl
  sort_by-IsSorted_same (a ∷ b ∷ l) ((ab, _), h) = rw (sort_by-IsSorted_same (b ∷ l) h, ab) refl

  module _ (trans : (a b c : A) → le a b ≡ true → le b c ≡ true → le a c ≡ true)
      (total : (a b : A) → le a b ≡ false → le b a ≡ true) where
    insert_by-All : (P : A → Type 0) (a : A) (bs : List A) → P a → All P bs → All P (insert_by a bs)
    unfolding insert_by
    insert_by-All P a [] h hs = (h, tt)
    insert_by-All P a (b ∷ bs) h (hb, hs) = elim (Bool-cases (le a b)) [
      | inl before ↦ rw before (h, (hb, hs))
      | inr after ↦ rw after (hb, insert_by-All P a bs h hs)
    ]

    All-below :
        (a b : A) (bs : List A)
        → le a b ≡ true
        → All (λ c. le b c ≡ true) bs
        → All (λ c. le a c ≡ true) bs
    All-below a b [] h hs = tt
    All-below a b (c ∷ bs) h (hc, hs) = (trans a b c h hc, All-below a b bs h hs)

    insert_by-IsSorted : (a : A) (bs : List A) → IsSorted bs → IsSorted (insert_by a bs)
    unfolding insert_by
    insert_by-IsSorted a [] h = (tt, tt)
    insert_by-IsSorted a (b ∷ bs) (below, h) = elim (Bool-cases (le a b)) [
      | inl before ↦ rw before ((before, All-below a b bs before below), (below, h))
      | inr after ↦ rw after (
        insert_by-All (λ c. le b c ≡ true) a bs (total a b after) below,
        insert_by-IsSorted a bs h,
      )
    ]

    pub sort_by-IsSorted : (l : List A) → IsSorted (sort_by l)
    unfolding sort_by
    sort_by-IsSorted [] = tt
    sort_by-IsSorted (a ∷ l) = insert_by-IsSorted a (sort_by l) (sort_by-IsSorted l)
