-- ===== src/Server/Io.antt =====
-- Calls that change a state, such as the disk, and may fail: the state behind the call is there also
-- when the result is an error.
use sdcio_schema_server.Base.{◌≡◌, ap, Result, Error, ok, err, panic}

abbrev pub Io : Type 0 → Type 0 → Type 0
Io D A = D → Result A × D

abbrev pub pure : {D A : Type 0} → A → Io D A
pure a d = (ok a, d)

abbrev pub fail : {D A : Type 0} → Error → Io D A
fail e d = (err e, d)

abbrev pub continue : {D A B : Type 0} → Result A × D → (A → Io D B) → Result B × D
continue (ok a, d) next = next a d
continue (err e, d) next = (err e, d)
continue (panic, d) next = (panic, d)

infixl 5 ◌>>=◌ ◌>>◌
abbrev pub ◌>>=◌ : {D A B : Type 0} → Io D A → (A → Io D B) → Io D B
◌>>=◌ m next d = continue (m d) next

abbrev pub ◌>>◌ : {D B : Type 0} → Io D (Unit {0}) → Io D B → Io D B
◌>>◌ m next d = continue (m d) (λ _. next)

-- A result that does not depend on the state.
abbrev pub lift : {D A : Type 0} → Result A → Io D A
lift r d = (r, d)

-- A call whose error is only logged.
abbrev pub ignore : {D A : Type 0} → Io D A → Io D (Unit {0})
ignore m d = (ok tt, (m d).1)

abbrev pub undo : {D A : Type 0} → Result A × D → Io D (Unit {0}) → Result A × D
undo (ok a, d) clean = (ok a, d)
undo (err e, d) clean = (err e, (clean d).1)
undo (panic, d) clean = (panic, d)

-- `if err != nil { clean; return err }`
abbrev pub on_error : {D A : Type 0} → Io D A → Io D (Unit {0}) → Io D A
on_error m clean d = undo (m d) clean

-- A call that succeeds, as an equation.
pub on_error_done :
    {D A : Type 0} (m : Io D A) (clean : Io D (Unit {0})) (d : D) (a : A)
    → (m d).0 ≡ ok a
    → on_error m clean d ≡ (ok a, (m d).1)
on_error_done m clean d a h = ap (λ r. undo (r, (m d).1) clean) h

pub bind_done :
    {D A B : Type 0} (m : Io D A) (next : A → Io D B) (d d' : D) (a : A)
    → m d ≡ (ok a, d')
    → (m >>= next) d ≡ next a d'
bind_done m next d d' a h = ap (λ r. continue r next) h

pub ran : {D A : Type 0} (m : Io D A) (d : D) (a : A) → (m d).0 ≡ ok a → m d ≡ (ok a, (m d).1)
ran m d a h = ap (λ r. (r, (m d).1)) h

pub bind_failed :
    {D A B : Type 0} (m : Io D A) (next : A → Io D B) (d : D) (e : Error)
    → (m d).0 ≡ err e
    → ((m >>= next) d).0 ≡ err e
bind_failed m next d e h = ap (λ r. (continue (r, (m d).1) next).0) h
