-- ===== src/Xpath/Printable.antt =====
-- What a path with a printable text is.
use sdcio_schema_server.Base.{ℕ, ◌≡◌, ◌≢◌, [], ◌∷◌, Str, Dict, keys, All, Lacks, sort_strings}
use sdcio_schema_server.Sdcpb.{PathElem}
use sdcio_schema_server.Xpath.Parse.{slash, open_bracket, close_bracket, backslash, equals}

-- A character that may stand in a key's name or value: no bracket, no backslash, no NUL.
abbrev pub IsKeyChar : ℕ → Type 0
IsKeyChar c = (c ≢ 0) × (c ≢ open_bracket) × (c ≢ close_bracket) × (c ≢ backslash)

-- A character that may stand in an element's name.
abbrev pub IsNameChar : ℕ → Type 0
IsNameChar c = IsKeyChar c × (c ≢ slash)

abbrev pub IsFresh : Str → Dict Str Str → Type 0
IsFresh k m = All (λ p. p.0 ≢ k) m

abbrev pub HasDistinctKeys : Dict Str Str → Type 0
HasDistinctKeys [] = Unit
HasDistinctKeys (p ∷ m) = IsFresh p.0 m × HasDistinctKeys m

abbrev pub IsKeyText : Str × Str → Type 0
IsKeyText p = (p.0 ≢ []) × (p.1 ≢ []) × All IsKeyChar p.0 × Lacks equals p.0 × All IsKeyChar p.1

pub record IsPrintable (pe : PathElem) : Type 0 where
  pub named : pe.name ≢ []
  pub name : All IsNameChar pe.name
  pub key : All IsKeyText pe.key
  pub distinct : HasDistinctKeys pe.key
  pub sorted : sort_strings (keys pe.key) ≡ keys pe.key
