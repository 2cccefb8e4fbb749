-- ===== src/Base/Sort.antt =====
-- `sort.Strings`, and `sort.Slice` by a name, as insertion sort: for distinct names the result is
-- the only one that is sorted.
use mathlib.Core.Path.{◌≡◌, refl}
use mathlib.Core.Logic.{inl, inr}
use mathlib.Core.Bool.{Bool, true, false, ◌&&◌, ◌||◌}
use mathlib.Core.List.{List, [], ◌∷◌, Perm}
use mathlib.Core.List.Perm
use native.Mathlib.Omega.{arith}
use sdcio_schema_server.Base.Tests.{nat_beq, ltb, if◌then◌else◌, Bool-cases}
use sdcio_schema_server.Base.Text.{Str}
use sdcio_schema_server.Base.Lists.{All}

-- `a <= b` of two Go strings.
unfoldable pub str_le : Str → Str → Bool
str_le [] t = true
str_le (c ∷ s) [] = false
str_le (c ∷ s) (d ∷ t) = ltb c d || (nat_beq c d && str_le s t)

pub str_le_total : (s t : Str) → str_le s t ≡ false → str_le t s ≡ true
unfolding str_le
str_le_total [] t h = absurd (ground arith)
str_le_total (c ∷ s) [] h = refl
str_le_total (c ∷ s) (d ∷ t) h = ground (arith, str_le_total s t)

pub str_le_trans : (s t u : Str) → str_le s t ≡ true → str_le t u ≡ true → str_le s u ≡ true
unfolding str_le
str_le_trans [] t u h k = refl
str_le_trans (c ∷ s) [] u h k = absurd (ground arith)
str_le_trans (c ∷ s) (d ∷ t) [] h k = absurd (ground arith)
str_le_trans (c ∷ s) (d ∷ t) (e ∷ u) h k = ground (arith, str_le_trans s t u)

module _ {ℓ} {A : Type ℓ} (name : A → Str) where
  unfoldable pub insert_by : A → List A → List A
  insert_by x [] = x ∷ []
  insert_by x (y ∷ ys) = if str_le (name x) (name y) then x ∷ (y ∷ ys) else y ∷ insert_by x ys

  unfoldable pub sort_by : List A → List A
  unfolding insert_by str_le
  sort_by [] = []
  sort_by (x ∷ xs) = insert_by x (sort_by xs)

  -- Each name is at most those behind it.
  abbrev pub IsSorted : List A → Type 0
  IsSorted [] = Unit
  IsSorted (x ∷ xs) = All (λ y. str_le (name x) (name y) ≡ true) xs × IsSorted xs

  All-le_trans :
      (x y : A) (ys : List A)
      → str_le (name x) (name y) ≡ true
      → All (λ z. str_le (name y) (name z) ≡ true) ys
      → All (λ z. str_le (name x) (name z) ≡ true) ys
  All-le_trans x y [] h k = tt
  All-le_trans x y (z ∷ ys) h (k, ks) =
      (str_le_trans (name x) (name y) (name z) h k, All-le_trans x y ys h ks)

  All-insert_by : (P : A → Type 0) (x : A) (ys : List A) → P x → All P ys → All P (insert_by x ys)
  unfolding insert_by
  All-insert_by P x [] px h = (px, tt)
  All-insert_by P x (y ∷ ys) px (py, h) = elim (Bool-cases (str_le (name x) (name y))) [
    | inl e ↦ rw e (px, (py, h))
    | inr e ↦ rw e (py, All-insert_by P x ys px h)
  ]

  insert_by-IsSorted : (x : A) (ys : List A) → IsSorted ys → IsSorted (insert_by x ys)
  unfolding insert_by
  insert_by-IsSorted x [] h = (tt, tt)
  insert_by-IsSorted x (y ∷ ys) (hy, h) = elim (Bool-cases (str_le (name x) (name y))) [
    | inl e ↦ rw e ((e, All-le_trans x y ys e hy), (hy, h))
    | inr e ↦ rw e (
      All-insert_by (λ z. str_le (name y) (name z) ≡ true) x ys (str_le_total (name x) (name y) e)
          hy,
      insert_by-IsSorted x ys h,
    )
  ]

  pub sort_by-IsSorted : (xs : List A) → IsSorted (sort_by xs)
  unfolding sort_by
  sort_by-IsSorted [] = tt
  sort_by-IsSorted (x ∷ xs) = insert_by-IsSorted x (sort_by xs) (sort_by-IsSorted xs)

  insert_by-perm : (x : A) (ys : List A) → Perm (insert_by x ys) (x ∷ ys)
  unfolding insert_by
  insert_by-perm x [] = Perm.refl _
  insert_by-perm x (y ∷ ys) = elim (Bool-cases (str_le (name x) (name y))) [
    | inl e ↦ rw e (Perm.refl _)
    | inr e ↦ rw e (Perm.trans (Perm.cons y (insert_by-perm x ys)) (Perm.swap x y ys))
  ]

  pub sort_by-perm : (xs : List A) → Perm (sort_by xs) xs
  unfolding sort_by
  sort_by-perm [] = Perm.refl _
  sort_by-perm (x ∷ xs) = Perm.trans (insert_by-perm x (sort_by xs)) (Perm.cons x (sort_by-perm xs))

  pub All-sort_by : (P : A → Type 0) (xs : List A) → All P xs → All P (sort_by xs)
  unfolding sort_by
  All-sort_by P [] h = tt
  All-sort_by P (x ∷ xs) (p, h) = All-insert_by P x (sort_by xs) p (All-sort_by P xs h)

-- `sort.Strings`.
unfoldable pub sort_strings : List Str → List Str
unfolding sort_by
sort_strings = sort_by (λ s. s)
