-- ===== src/Client/Upload/Chunks.antt =====
-- The division of a file into chunks.
use sdcio_schema_server.Base.{
  ℕ, zero, suc, ◌+◌, ◌-◌, ◌≤◌, ◌<◌, ◌≡◌, refl, sym, ap, subst, ◌∙◌, Option, none, some, List, [],
  ◌∷◌, ◌++◌, append-nil, Str, ltb, length, take, drop, take-append-drop, All, Bool-cases, inl, inr,
  if◌then◌else◌, arith,
}
use sdcio_schema_server.Server.Os.{concat}
use sdcio_schema_server.Client.Upload.{chunks}

length-drop : (n : ℕ) (s : Str) → length (drop n s) ≡ length s - n
length-drop zero s = omega arith
length-drop (suc n) [] = omega arith
length-drop (suc n) (c ∷ s) = omega (arith, length-drop n s)

length-take : (n : ℕ) (s : Str) → n ≤ length s → length (take n s) ≡ n
length-take zero s h = refl
length-take (suc n) [] h = omega arith
length-take (suc n) (c ∷ s) h = omega (arith, length-take n s (omega arith))

drop-drop : (m n : ℕ) (s : Str) → drop m (drop n s) ≡ drop (n + m) s
drop-drop m zero s = ap (λ (k : ℕ). drop k s) {x = m} {y = 0 + m} (omega arith)
drop-drop m (suc n) (c ∷ s) =
    drop-drop m n s ∙ ap (λ (k : ℕ). drop k (c ∷ s)) {x = suc (n + m)} {y = suc n + m} (omega arith)
drop-drop zero (suc n) [] =
    ap (λ (k : ℕ). drop k []) {x = suc (n + 0)} {y = suc n + 0} (omega arith)
drop-drop (suc m) (suc n) [] =
    ap (λ (k : ℕ). drop k []) {x = suc (n + suc m)} {y = suc n + suc m} (omega arith)

drop_all : (n : ℕ) (s : Str) → length s ≤ n → drop n s ≡ []
drop_all zero [] h = refl
drop_all zero (c ∷ s) h = absurd (omega arith)
drop_all (suc n) [] h = refl
drop_all (suc n) (c ∷ s) h = drop_all n s (omega arith)

take_all : (s : Str) → take (length s) s ≡ s
take_all [] = refl
take_all (c ∷ s) = ap (λ (t : Str). c ∷ t) (take_all s)

-- One round takes `n` bytes of those that are left.
record IsRound (n size : ℕ) (s : Str) : Type 0 where
  most : n ≤ size
  least : 1 ≤ n
  fits : n ≤ length s
  whole : take n s ++ drop size s ≡ s

round_lem :
    (size start : ℕ) (b : Str)
    → 1 ≤ size
    → start < length b
    → IsRound
        ((if ltb (length b) (start + size) then length b else start + size) - start)
        size
        (drop start b)
round_lem size start b h k = elim (Bool-cases (ltb (length b) (start + size))) [
  | inl e ↦ rw e (record {
    most = ground arith;
    least = omega arith;
    fits = omega (arith, length-drop start b);
    whole =
        ap (λ (n : ℕ). take n (drop start b) ++ drop size (drop start b))
          (sym (length-drop start b))
        ∙ (ap (λ (s : Str). take (length (drop start b)) (drop start b) ++ s)
              (drop_all size (drop start b) (ground (arith, length-drop start b)))
            ∙ (append-nil _ ∙ take_all (drop start b)));
  })
  | inr e ↦ rw e (record {
    most = omega arith;
    least = omega arith;
    fits = ground (arith, length-drop start b);
    whole =
        ap (λ (n : ℕ). take n (drop start b) ++ drop size (drop start b)) (omega arith)
        ∙ take-append-drop size (drop start b);
  })
]

abbrev Divided : ℕ → Str → Option (List Str) → Type 0
Divided size s o =
    (cs : List Str) × (o ≡ some cs)
    × (concat cs ≡ s)
    × All (λ c. (1 ≤ length c) × (length c ≤ size)) cs

Divided-more :
    (n size : ℕ) (s : Str) (o : Option (List Str))
    → IsRound n size s
    → Divided size (drop size s) o
    → Divided size s (elim o [ none ↦ none | some cs ↦ some (take n s ∷ cs) ])
Divided-more n size s o r (cs, e, same, small) = (
  take n s ∷ cs,
  rw e,
  ap (λ (t : Str). take n s ++ t) same ∙ r.whole,
  (
    (omega (arith, length-take n s r.fits, r.least), omega (arith, length-take n s r.fits, r.most)),
    small,
  ),
)

chunks_from :
    (fuel size start : ℕ) (b : Str)
    → 1 ≤ size
    → length b ≤ start + fuel
    → Divided size (drop start b) (chunks fuel size start b)
unfolding chunks
chunks_from zero size start b h k = elim (Bool-cases (ltb start (length b))) [
  | inl e ↦ absurd (ground arith)
  | inr e ↦ rw (e, drop_all start b (ground arith)) ([], refl, refl, tt)
]
chunks_from (suc fuel) size start b h k = elim (Bool-cases (ltb start (length b))) [
  | inl e ↦ rw e (
      Divided-more _ size (drop start b) _ (round_lem size start b h (ground arith)) (
        subst (λ (t : Str). Divided size t (chunks fuel size (start + size) b))
          (sym (drop-drop size start b)) (chunks_from fuel size (start + size) b h (omega arith))))
  | inr e ↦ rw (e, drop_all start b (ground arith)) ([], refl, refl, tt)
]

-- With a chunk size of one or more the division ends, in no more rounds than the file has bytes: each
-- chunk holds at least one byte and no more than the chunk size, and together they are the file.
pub chunks-concat :
    (size : ℕ) (b : Str)
    → 1 ≤ size
    → (cs : List Str) × (chunks (length b) size 0 b ≡ some cs)
      × (concat cs ≡ b)
      × All (λ c. (1 ≤ length c) × (length c ≤ size)) cs
chunks-concat size b h = chunks_from (length b) size 0 b h (omega arith)

endless : (fuel start : ℕ) (b : Str) → start < length b → chunks fuel 0 start b ≡ none
unfolding chunks
endless zero start b h = ground arith
endless (suc fuel) start b h =
    rw
      (
        ap (λ (n : ℕ). chunks fuel 0 n b) {x = start + 0} {y = start} (omega arith),
        endless fuel start b h,
      )
      (ground arith)

-- With a chunk size of 0 the division of a file that is not empty does not end.
pub chunks_zero_endless : (fuel : ℕ) (b : Str) → 1 ≤ length b → chunks fuel 0 0 b ≡ none
chunks_zero_endless fuel b h = endless fuel 0 b (omega arith)
