-- ===== src/Client/List/Tests.antt =====
-- The table of two versions of a schema, and a third one, with an insertion sort as `sort.Slice`.
use mathlib.Core.List.{Perm}
use mathlib.Core.List.Perm
use sdcio_schema_server.Base.{
  ◌≡◌, refl, Bool, true, false, Bool-cases, inl, inr, All, List, [], ◌∷◌, codes, if◌then◌else◌,
}
use sdcio_schema_server.Sdcpb.{SchemaName}
use sdcio_schema_server.Store.Sample.{srl_name}
use sdcio_schema_server.Client.List.{table}
use sdcio_schema_server.Client.List.Order.{InOrder, Unbroken, IsOrdering, IsSortSlice, table_sorts}

module _ (less : SchemaName → SchemaName → Bool) where
  unfoldable put : SchemaName → List SchemaName → List SchemaName
  put a [] = a ∷ []
  put a (b ∷ bs) = let rest = put a bs in if less b a then b ∷ rest else a ∷ (b ∷ bs)

  unfoldable slice : List SchemaName → List SchemaName
  unfolding put
  slice [] = []
  slice (a ∷ bs) = put a (slice bs)

  put-Perm : (a : SchemaName) (bs : List SchemaName) → Perm (put a bs) (a ∷ bs)
  unfolding put
  put-Perm a [] = Perm.refl _
  put-Perm a (b ∷ bs) = elim (Bool-cases (less b a)) [
    | inl e ↦ rw e (Perm.trans (Perm.cons b (put-Perm a bs)) (Perm.swap a b bs))
    | inr e ↦ rw e (Perm.refl _)
  ]

  slice-Perm : (xs : List SchemaName) → Perm (slice xs) xs
  unfolding slice
  slice-Perm [] = Perm.refl _
  slice-Perm (x ∷ xs) = Perm.trans (put-Perm x (slice xs)) (Perm.cons x (slice-Perm xs))

  module _ (o : IsOrdering less) where
    not_less_trans : (a b y : SchemaName) → less b a ≡ false → less y b ≡ false → less y a ≡ false
    not_less_trans a b y h k = elim (Bool-cases (less y a)) [
      | inr e ↦ e
      | inl e ↦ elim (Bool-cases (less b y)) [
        | inl f ↦ cc (h, o.less_trans b y a f e)
        | inr f ↦ elim (Bool-cases (less a b)) [
          | inl g ↦ cc (k, o.less_trans y a b e g)
          | inr g ↦ (o.neither_trans y b a (k, f) (h, g)).0
        ]
      ]
    ]

    less_asym : (a b : SchemaName) → less b a ≡ true → less a b ≡ false
    less_asym a b h = elim (Bool-cases (less a b)) [
      | inr e ↦ e
      | inl e ↦ cc (o.less_self a, o.less_trans a b a e h)
    ]

    All-beyond :
        (a b : SchemaName) (cs : List SchemaName)
        → less b a ≡ false
        → All (λ y. less y b ≡ false) cs
        → All (λ y. less y a ≡ false) cs
    All-beyond a b [] h k = tt
    All-beyond a b (c ∷ cs) h (k, ks) = (not_less_trans a b c h k, All-beyond a b cs h ks)

    All-put :
        (x a : SchemaName) (bs : List SchemaName)
        → less a x ≡ false
        → All (λ y. less y x ≡ false) bs
        → All (λ y. less y x ≡ false) (put a bs)
    unfolding put
    All-put x a [] h k = (h, tt)
    All-put x a (b ∷ bs) h (k, ks) = elim (Bool-cases (less b a)) [
      | inl e ↦ rw e (k, All-put x a bs h ks)
      | inr e ↦ rw e (h, (k, ks))
    ]

    put-Unbroken :
        (a : SchemaName) (bs : List SchemaName) → Unbroken less bs → Unbroken less (put a bs)
    unfolding put
    put-Unbroken a [] h = (tt, tt)
    put-Unbroken a (b ∷ bs) (h, hs) = elim (Bool-cases (less b a)) [
      | inl e ↦ rw e (All-put b a bs (less_asym a b e) h, put-Unbroken a bs hs)
      | inr e ↦ rw e ((e, All-beyond a b bs e h), (h, hs))
    ]

    slice-Unbroken : (xs : List SchemaName) → Unbroken less (slice xs)
    unfolding slice
    slice-Unbroken [] = tt
    slice-Unbroken (x ∷ xs) = put-Unbroken x (slice xs) (slice-Unbroken xs)

slice-IsSortSlice : IsSortSlice slice
slice-IsSortSlice = record { same_rows = slice-Perm; sorts = λ less xs o. slice-Unbroken less o xs }

abbrev srl_later : SchemaName
srl_later = record srl_name { version = codes "22.11" }

abbrev sros : SchemaName
sros = record srl_name { name = codes "sros" }

abbrev listed : List SchemaName
listed = sros ∷ (srl_name ∷ (srl_later ∷ []))

abbrev relisted : List SchemaName
relisted = srl_name ∷ (sros ∷ (srl_later ∷ []))

-- Versions are compared as text: 22.11 stands before 22.3.
versions_as_text : table slice listed ≡ srl_later ∷ (srl_name ∷ (sros ∷ []))
unfolding table slice
versions_as_text = refl

table_sorts_example :
    Perm (table slice listed) listed
    × InOrder (table slice listed)
    × (table slice listed ≡ table slice relisted)
table_sorts_example =
    table_sorts slice slice-IsSortSlice listed relisted (Perm.swap srl_name sros (srl_later ∷ []))
