-- ===== src/Server/Upload/Always.antt =====
-- What holds of every value that a call returns, from whatever state it starts.
use sdcio_schema_server.Base.{
  ◌≡◌, refl, subst, Bool, true, false, Error, Result, ok, err, panic, if◌then◌else◌,
}
use sdcio_schema_server.Server.Io.{Io, pure, fail, continue, ◌>>=◌, ◌>>◌, undo, on_error}

pub record Always {D A : Type 0} (P : A → Type 0) (m : Io D A) : Type 0 where
  pub at : (d : D) (a : A) → (m d).0 ≡ ok a → P a

continue_ok :
    {D A B : Type 0} (r : Result A × D) (next : A → Io D B) (b : B)
    → (continue r next).0 ≡ ok b
    → (a : A) × (r.0 ≡ ok a) × ((next a r.1).0 ≡ ok b)
continue_ok (ok a, d) next b h = (a, refl, h)
continue_ok (err e, d) next b h = cc
continue_ok (panic, d) next b h = cc

undo_ok :
    {D A : Type 0} (r : Result A × D) (clean : Io D (Unit {0})) (a : A)
    → (undo r clean).0 ≡ ok a
    → r.0 ≡ ok a
undo_ok (ok a, d) clean b h = h
undo_ok (err e, d) clean b h = cc
undo_ok (panic, d) clean b h = cc

ok_eq : {A : Type 0} {a b : A} → ◌≡◌ {A = Result A} (ok a) (ok b) → a ≡ b
ok_eq h = cc

pub Always-pure : {D A : Type 0} (P : A → Type 0) (a : A) → P a → Always {D = D} P (pure a)
Always-pure P a p = record { at = λ d b h. subst P (ok_eq h) p }

pub Always-fail : {D A : Type 0} (P : A → Type 0) (e : Error) → Always {D = D} P (fail e)
Always-fail P e = record { at = λ d b h. cc }

pub Always-bind :
    {D A B : Type 0} (Q : A → Type 0) (P : B → Type 0) (m : Io D A) (next : A → Io D B)
    → Always Q m
    → ((a : A) → Q a → Always P (next a))
    → Always P (m >>= next)
Always-bind Q P m next h g = record {
  at = λ d b e.
      let (a, first, then_) = continue_ok (m d) next b e in
      (g a (h.at d a first)).at (m d).1 b then_;
}

-- A call whose value does not matter.
pub Always-any : {D A : Type 0} (m : Io D A) → Always (λ _. Unit {0}) m
Always-any m = record { at = λ d a h. tt }

pub Always-then :
    {D A B : Type 0} (P : B → Type 0) (m : Io D A) (next : A → Io D B)
    → ((a : A) → Always P (next a))
    → Always P (m >>= next)
Always-then P m next g = Always-bind (λ _. Unit {0}) P m next (Always-any m) (λ a _. g a)

pub Always-if :
    {D A : Type 0} (P : A → Type 0) (b : Bool) (m n : Io D A)
    → (b ≡ true → Always P m)
    → (b ≡ false → Always P n)
    → Always P (if b then m else n)
Always-if P true m n h g = h refl
Always-if P false m n h g = g refl

pub Always-imply :
    {D A : Type 0} (Q : A → Type 0) (P : A → Type 0) (m : Io D A)
    → Always Q m
    → ((a : A) → Q a → P a)
    → Always P m
Always-imply Q P m h g = record { at = λ d a e. g a (h.at d a e) }

pub Always-refused :
    {D A : Type 0} (P : A → Type 0) (m : Io D (Unit {0})) (e : Error)
    → Always {D = D} P (m >> fail e)
Always-refused P m e = Always-then P m (λ _. fail e) (λ _. Always-fail P e)

pub Always-on_error :
    {D A : Type 0} (P : A → Type 0) (m : Io D A) (clean : Io D (Unit {0}))
    → Always P m
    → Always P (on_error m clean)
Always-on_error P m clean h = record { at = λ d a e. h.at d a (undo_ok (m d) clean a e) }
