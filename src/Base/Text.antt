-- ===== src/Base/Text.antt =====
-- A Go string as the list of its code points. The strings of the program are valid UTF-8 (protobuf
-- refuses others), where a walk over runes, a comparison and a search for an ASCII character agree
-- with this view. The functions are those of Go's `strings` package that the program calls.
use Prim.Native.Nat.{ℕ, suc}
use Prim.Native.Char.{code}
use Prim.Native.String.{String}
use mathlib.Core.Path.{◌≡◌, refl, ap}
use mathlib.Core.Logic.{◌↔◌, ◌≢◌}
use mathlib.Core.Bool.{Bool, true, false, ◌&&◌, ◌||◌}
use mathlib.Core.Option
use mathlib.Core.Option.{Option, none, some}
use mathlib.Core.List.{List, [], ◌∷◌, ◌++◌, reverse}
use native.Mathlib.Omega.{arith}
use sdcio_schema_server.Base.Tests.{nat_beq, leb, Eq, if◌then◌else◌}
use sdcio_schema_server.Base.Lists.{take, drop, All, length}

abbrev pub Str : Type 0
Str = List ℕ

abbrev pub codes : String → Str
codes String.[] = []
codes (String.◌∷◌ c s) = code c ∷ codes s

abbrev pub str_beq : Str → Str → Bool
str_beq [] [] = true
str_beq [] (d ∷ t) = false
str_beq (c ∷ s) [] = false
str_beq (c ∷ s) (d ∷ t) = nat_beq c d && str_beq s t

pub str_beq_iff : (s t : Str) → (str_beq s t ≡ true) ↔ (s ≡ t)
str_beq_iff [] [] = (λ _. refl, λ _. refl)
str_beq_iff [] (d ∷ t) = ground arith
str_beq_iff (c ∷ s) [] = ground arith
str_beq_iff (c ∷ s) (d ∷ t) = ground (arith, str_beq_iff s t)

instance abbrev pub str_eq : Eq Str
str_eq = record { is_same = str_beq; is_same_iff = str_beq_iff }

-- `strings.Index(s, string(c))`, for one character.
unfoldable pub index_of : ℕ → Str → Option ℕ
index_of c [] = none
index_of c (d ∷ s) = if nat_beq d c then some 0 else Option.map suc (index_of c s)

-- The text before the first `c` and the text behind it: `s[:idx]` and `s[idx+1:]`.
unfoldable pub cut_at : ℕ → Str → Option (Str × Str)
cut_at c s = elim (index_of c s) [ none ↦ none | some i ↦ some (take i s, drop (suc i) s) ]

-- `strings.HasPrefix(s, p)`.
unfoldable pub has_prefix : Str → Str → Bool
has_prefix [] s = true
has_prefix (c ∷ p) [] = false
has_prefix (c ∷ p) (d ∷ s) = nat_beq c d && has_prefix p s

-- `strings.Contains(s, p)`.
unfoldable pub contains : Str → Str → Bool
unfolding has_prefix
contains p [] = has_prefix p []
contains p (d ∷ s) = has_prefix p (d ∷ s) || contains p s

-- `strings.Join(parts, sep)`.
unfoldable pub join : Str → List Str → Str
join sep [] = []
join sep (p ∷ []) = p
join sep (p ∷ (q ∷ ps)) = p ++ (sep ++ join sep (q ∷ ps))

-- `unicode.IsSpace`.
unfoldable pub is_space : ℕ → Bool
is_space c =
    (leb 9 c && leb c 13)
    || nat_beq c 0x20
    || nat_beq c 0x85
    || nat_beq c 0xa0
    || nat_beq c 0x1680
    || (leb 0x2000 c && leb c 0x200a)
    || nat_beq c 0x2028
    || nat_beq c 0x2029
    || nat_beq c 0x202f
    || nat_beq c 0x205f
    || nat_beq c 0x3000

-- `strings.TrimSpace(s)`
unfoldable pub trim_left : Str → Str
unfolding is_space
trim_left [] = []
trim_left (c ∷ s) = if is_space c then trim_left s else c ∷ s

abbrev pub trim_space : Str → Str
trim_space s = reverse (trim_left (reverse (trim_left s)))

abbrev flush : Str → List Str → List Str
flush [] out = out
flush (c ∷ cur) out = (c ∷ cur) ∷ out

-- The word that is being read, and the words of the rest.
fields_from : Str → Str → List Str
fields_from cur [] = flush cur []
fields_from cur (c ∷ s) =
    let stop = flush cur (fields_from [] s) in
    let more = fields_from (cur ++ c ∷ []) s in if is_space c then stop else more

-- `strings.Fields(s)`: the words between runs of white space.
unfoldable pub fields : Str → List Str
unfolding fields_from is_space
fields s = fields_from [] s

-- No `c` in the text.
abbrev pub Lacks : ℕ → Str → Type 0
Lacks c s = All (λ d. d ≢ c) s

pub index_of-append : (c : ℕ) (s t : Str) → Lacks c s → index_of c (s ++ c ∷ t) ≡ some (length s)
unfolding index_of
index_of-append c [] t h = ground arith
index_of-append c (d ∷ s) t (h, hs) = ground (arith, index_of-append c s t hs)

pub index_of-Lacks : (c : ℕ) (s : Str) → Lacks c s → index_of c s ≡ none
unfolding index_of
index_of-Lacks c [] h = refl
index_of-Lacks c (d ∷ s) (h, hs) = ground (arith, index_of-Lacks c s hs)

pub take-length : (s t : Str) → take (length s) (s ++ t) ≡ s
take-length [] t = refl
take-length (c ∷ s) t = ap (λ u. c ∷ u) (take-length s t)

pub drop-length : (s t : Str) (c : ℕ) → drop (suc (length s)) (s ++ c ∷ t) ≡ t
drop-length [] t c = refl
drop-length (d ∷ s) t c = drop-length s t c

-- Cutting behind a text that lacks the separator gives back the two parts.
pub cut_at-append : (c : ℕ) (s t : Str) → Lacks c s → cut_at c (s ++ c ∷ t) ≡ some (s, t)
unfolding cut_at
cut_at-append c s t h =
    rw (index_of-append c s t h, cut_at) (cc (take-length s (c ∷ t), drop-length s t c))

pub cut_at-Lacks : (c : ℕ) (s : Str) → Lacks c s → cut_at c s ≡ none
unfolding cut_at
cut_at-Lacks c s h = rw (index_of-Lacks c s h, cut_at)

-- Two texts with a separator that their first parts lack are equal only part by part.
pub append_sep-injective :
    (c : ℕ) (s s' t t' : Str)
    → Lacks c s
    → Lacks c s'
    → s ++ c ∷ t ≡ s' ++ c ∷ t'
    → (s ≡ s') × (t ≡ t')
append_sep-injective c [] [] t t' h h' e = (refl, ground arith)
append_sep-injective c [] (d ∷ s') t t' h (h', _) e = absurd (ground arith)
append_sep-injective c (d ∷ s) [] t t' (h, _) h' e = absurd (ground arith)
append_sep-injective c (d ∷ s) (d' ∷ s') t t' (_, h) (_, h') e =
    let (p, q) = append_sep-injective c s s' t t' h h' (ground arith) in (ground arith, q)

pub has_prefix-append : (p s : Str) → has_prefix p (p ++ s) ≡ true
unfolding has_prefix
has_prefix-append [] s = refl
has_prefix-append (c ∷ p) s = ground (arith, has_prefix-append p s)

pub has_prefix_split : (p s : Str) → has_prefix p s ≡ true → (r : Str) × (s ≡ p ++ r)
unfolding has_prefix
has_prefix_split [] s h = (s, refl)
has_prefix_split (c ∷ p) [] h = absurd (ground arith)
has_prefix_split (c ∷ p) (d ∷ s) h =
    let (r, e) = has_prefix_split p s (ground arith) in (r, ground arith)

-- Cutting at a character that the first part lacks leaves that part whole.
pub cut_at-append-Lacks :
    (c : ℕ) (s t : Str)
    → Lacks c s
    → cut_at c (s ++ t) ≡ elim (cut_at c t) [ none ↦ none | some p ↦ some (s ++ p.0, p.1) ]
unfolding cut_at index_of
cut_at-append-Lacks c [] t h = ground arith
cut_at-append-Lacks c (d ∷ s) t (hd, h) = ground (arith, cut_at-append-Lacks c s t h)
