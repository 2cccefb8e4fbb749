-- ===== src/Client/List/Order.antt =====
-- The order of the table of schemas: by name, vendor and version, whatever sort is used and in
-- whatever order the server lists them.
use mathlib.Core.List.{Perm, foldr}
use mathlib.Core.List.Perm
use sdcio_schema_server.Base.{
  ◌≡◌, refl, sym, ap, ◌∙◌, Bool, true, false, not, List, [], ◌∷◌, Str, All, str_eq, ◌==◌, str_le,
  str_le_total, str_le_trans, if◌then◌else◌, arith,
}
use sdcio_schema_server.Sdcpb.{SchemaName}
use sdcio_schema_server.Client.List.{row_less, table}

str_le_antisym : (s t : Str) → str_le s t ≡ true → str_le t s ≡ true → s ≡ t
unfolding str_le
str_le_antisym [] [] h k = refl
str_le_antisym [] (d ∷ t) h k = absurd (ground arith)
str_le_antisym (c ∷ s) [] h k = absurd (ground arith)
str_le_antisym (c ∷ s) (d ∷ t) h k = ground (arith, str_le_antisym s t)

-- `a` stands before `b`, or they are equal.
abbrev le_then : Str → Str → Bool → Bool
le_then s t rest = if s == t then rest else str_le s t

le_then_trans :
    (s t u : Str) (p q r : Bool)
    → (p ≡ true → q ≡ true → r ≡ true)
    → le_then s t p ≡ true
    → le_then t u q ≡ true
    → le_then s u r ≡ true
le_then_trans s t u p q r next h k = ground (
  arith,
  str_le_trans s t u,
  str_le_antisym s t,
  str_eq.is_same_iff s t,
  str_eq.is_same_iff t u,
  str_eq.is_same_iff s u,
)

le_then_antisym :
    (s t : Str) (p q : Bool)
    → le_then s t p ≡ true
    → le_then t s q ≡ true
    → (s ≡ t) × (p ≡ true) × (q ≡ true)
le_then_antisym s t p q h k =
    ground (arith, str_le_antisym s t, str_eq.is_same_iff s t, str_eq.is_same_iff t s)

-- A row stands before another one, or they are equal.
row_le : SchemaName → SchemaName → Bool
row_le a b = le_then a.name b.name (le_then a.vendor b.vendor (str_le a.version b.version))

row_less-row_le : (a b : SchemaName) → row_less b a ≡ not (row_le a b)
unfolding row_less row_le
row_less-row_le a b = ground (
  arith,
  str_eq.is_same_iff a.name b.name,
  str_eq.is_same_iff b.name a.name,
  str_eq.is_same_iff a.vendor b.vendor,
  str_eq.is_same_iff b.vendor a.vendor,
)

row_le_trans : (a b c : SchemaName) → row_le a b ≡ true → row_le b c ≡ true → row_le a c ≡ true
unfolding row_le
row_le_trans a b c =
    le_then_trans a.name b.name c.name _ _ _
      (le_then_trans a.vendor b.vendor c.vendor _ _ _ (str_le_trans a.version b.version c.version))

row_le_antisym : (a b : SchemaName) → row_le a b ≡ true → row_le b a ≡ true → a ≡ b
unfolding row_le
row_le_antisym a b h k =
    let (n, p, q) = le_then_antisym a.name b.name _ _ h k in
    let (v, p', q') = le_then_antisym a.vendor b.vendor _ _ p q in
    cc (n, v, str_le_antisym a.version b.version p' q')

row_le_total : (a b : SchemaName) → row_le a b ≡ false → row_le b a ≡ true
unfolding row_le
row_le_total a b h = ground (
  arith,
  h,
  str_le_total a.name b.name,
  str_le_total a.vendor b.vendor,
  str_le_total a.version b.version,
  str_eq.is_same_iff a.name b.name,
  str_eq.is_same_iff b.name a.name,
  str_eq.is_same_iff a.vendor b.vendor,
  str_eq.is_same_iff b.vendor a.vendor,
)

-- A reference: the insertion sort.
unfoldable insert_row : SchemaName → List SchemaName → List SchemaName
insert_row a [] = a ∷ []
insert_row a (b ∷ bs) = if row_less b a then b ∷ insert_row a bs else a ∷ (b ∷ bs)

unfoldable insertion_sort : List SchemaName → List SchemaName
insertion_sort [] = []
insertion_sort (a ∷ bs) = insert_row a (insertion_sort bs)

-- The insertion of two rows, in either order.
insert_row_comm :
    (a b : SchemaName) (cs : List SchemaName)
    → insert_row a (insert_row b cs) ≡ insert_row b (insert_row a cs)
unfolding insert_row
insert_row_comm a b [] = ground (
  arith,
  row_less-row_le a b,
  row_less-row_le b a,
  row_le_antisym a b,
  row_le_total a b,
  row_le_total b a,
)
insert_row_comm a b (c ∷ cs) = ground (
  arith,
  insert_row_comm a b cs,
  row_less-row_le a b,
  row_less-row_le b a,
  row_less-row_le a c,
  row_less-row_le b c,
  row_le_antisym a b,
  row_le_total a b,
  row_le_total b a,
  row_le_trans a b c,
  row_le_trans b a c,
  row_le_total a c,
  row_le_total b c,
  row_le_trans c a b,
  row_le_trans c b a,
)

rows-IsSet : IsSet (List SchemaName)
rows-IsSet = hlevel

insertion_sort-foldr : (xs : List SchemaName) → insertion_sort xs ≡ foldr insert_row [] xs
unfolding insertion_sort
insertion_sort-foldr [] = refl
insertion_sort-foldr (a ∷ bs) = ap (insert_row a) (insertion_sort-foldr bs)

insertion_sort-Perm : (xs ys : List SchemaName) → Perm xs ys → insertion_sort xs ≡ insertion_sort ys
insertion_sort-Perm xs ys p =
    insertion_sort-foldr xs
    ∙ Perm.foldr-eq rows-IsSet insert_row insert_row_comm p []
    ∙ sym (insertion_sort-foldr ys)

-- No row is less than one above it.
abbrev pub Unbroken : (SchemaName → SchemaName → Bool) → List SchemaName → Type 0
Unbroken less [] = Unit
Unbroken less (x ∷ xs) = All (λ y. less y x ≡ false) xs × Unbroken less xs

-- What `sort.Interface` asks of a comparison: it orders transitively, nothing is less than itself,
-- and that neither of two is less is transitive too.
pub record IsOrdering (less : SchemaName → SchemaName → Bool) : Type 0 where
  pub less_self : (a : SchemaName) → less a a ≡ false
  pub less_trans : (a b c : SchemaName) → less a b ≡ true → less b c ≡ true → less a c ≡ true
  pub neither_trans :
      (a b c : SchemaName)
      → (less a b ≡ false) × (less b a ≡ false)
      → (less b c ≡ false) × (less c b ≡ false)
      → (less a c ≡ false) × (less c a ≡ false)

-- `sort.Slice`: the slice has the same elements, and is sorted by such a comparison.
pub record IsSortSlice
    (sort_slice : (SchemaName → SchemaName → Bool) → List SchemaName → List SchemaName)
    : Type 0 where
  pub same_rows :
      (less : SchemaName → SchemaName → Bool) (xs : List SchemaName) → Perm (sort_slice less xs) xs
  pub sorts :
      (less : SchemaName → SchemaName → Bool) (xs : List SchemaName)
      → IsOrdering less
      → Unbroken less (sort_slice less xs)

row_less-IsOrdering : IsOrdering row_less
row_less-IsOrdering = record {
  less_self = λ a. ground (arith, row_less-row_le a a, row_le_total a a);
  less_trans = λ a b c h k. ground (
    arith,
    h,
    k,
    row_less-row_le b a,
    row_less-row_le c b,
    row_less-row_le c a,
    row_le_total b a,
    row_le_total c b,
    row_le_trans b c a,
    row_le_trans c a b,
    row_le_trans a b c,
    row_le_antisym a b,
    row_le_antisym b c,
  );
  neither_trans = λ a b c h k. ground (
    arith,
    h.0,
    h.1,
    k.0,
    k.1,
    row_less-row_le a b,
    row_less-row_le b a,
    row_less-row_le b c,
    row_less-row_le c b,
    row_less-row_le a c,
    row_less-row_le c a,
    row_le_trans a b c,
    row_le_trans c b a,
  );
}

insert_row-least :
    (a : SchemaName) (bs : List SchemaName)
    → All (λ y. row_less y a ≡ false) bs
    → insert_row a bs ≡ a ∷ bs
unfolding insert_row
insert_row-least a [] h = refl
insert_row-least a (b ∷ bs) (h, hs) = rw h refl

insertion_sort-Unbroken : (xs : List SchemaName) → Unbroken row_less xs → insertion_sort xs ≡ xs
unfolding insertion_sort
insertion_sort-Unbroken [] h = refl
insertion_sort-Unbroken (x ∷ xs) (h, hs) =
    ap (insert_row x) (insertion_sort-Unbroken xs hs) ∙ insert_row-least x xs h

-- A row stands before another one by the name, where the names are the same by the vendor, and where
-- the vendors are the same too by the version.
pub record Before (a b : SchemaName) : Type 0 where
  pub by_name : str_le a.name b.name ≡ true
  pub by_vendor : a.name ≡ b.name → str_le a.vendor b.vendor ≡ true
  pub by_version : a.name ≡ b.name → a.vendor ≡ b.vendor → str_le a.version b.version ≡ true

abbrev pub InOrder : List SchemaName → Type 0
InOrder [] = Unit
InOrder (x ∷ xs) = All (Before x) xs × InOrder xs

str_le_refl : (s : Str) → str_le s s ≡ true
unfolding str_le
str_le_refl [] = refl
str_le_refl (c ∷ s) = ground (arith, str_le_refl s)

row_less-Before : (a b : SchemaName) → row_less b a ≡ false → Before a b
unfolding row_less
row_less-Before a b h = record {
  by_name = ground (arith, h, str_le_refl a.name, str_eq.is_same_iff b.name a.name);
  by_vendor = λ n. ground (
    arith,
    h,
    n,
    str_le_refl a.vendor,
    str_eq.is_same_iff b.name a.name,
    str_eq.is_same_iff b.vendor a.vendor,
  );
  by_version = λ n v.
      ground
        (arith, h, n, v, str_eq.is_same_iff b.name a.name, str_eq.is_same_iff b.vendor a.vendor);
}

All-Before :
    (x : SchemaName) (xs : List SchemaName) → All (λ y. row_less y x ≡ false) xs → All (Before x) xs
All-Before x [] h = tt
All-Before x (y ∷ ys) (h, hs) = (row_less-Before x y h, All-Before x ys hs)

Unbroken-InOrder : (xs : List SchemaName) → Unbroken row_less xs → InOrder xs
Unbroken-InOrder [] h = tt
Unbroken-InOrder (x ∷ xs) (h, hs) = (All-Before x xs h, Unbroken-InOrder xs hs)

-- The table has the schemas that the server lists, each as often, and its rows are in the order of
-- the names, for the same name of the vendors, and for the same vendor too of the versions; a server
-- that lists the same schemas in another order gets the same table. `sort.Slice` sorts by a
-- comparison that is as its documentation asks.
pub table_sorts :
    (sort_slice : (SchemaName → SchemaName → Bool) → List SchemaName → List SchemaName)
    → IsSortSlice sort_slice
    → (xs ys : List SchemaName) → Perm xs ys
    → Perm (table sort_slice xs) xs
      × InOrder (table sort_slice xs)
      × (table sort_slice xs ≡ table sort_slice ys)
unfolding table
table_sorts sort_slice d xs ys p =
    let sorted : (zs : List SchemaName) → sort_slice row_less zs ≡ insertion_sort zs = λ zs.
      sym (insertion_sort-Unbroken _ (d.sorts row_less zs row_less-IsOrdering))
      ∙ insertion_sort-Perm _ zs (d.same_rows row_less zs) in
    (
      d.same_rows row_less xs,
      Unbroken-InOrder _ (d.sorts row_less xs row_less-IsOrdering),
      sorted xs ∙ insertion_sort-Perm xs ys p ∙ sym (sorted ys),
    )
