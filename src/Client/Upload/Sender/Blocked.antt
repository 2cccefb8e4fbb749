-- ===== src/Client/Upload/Sender/Blocked.antt =====
-- When the sender comes to its end.
use sdcio_schema_server.Base.{
  ℕ, suc, ◌+◌, ◌≤◌, ◌≡◌, ◌≢◌, ◌↔◌, refl, List, [], ◌∷◌, ◌++◌, ltb, length, length-append,
  Bool-cases, inl, inr, Error, Result, ok, err, panic, arith, Str, if◌then◌else◌,
}
use sdcio_schema_server.Server.Io.{Io}
use sdcio_schema_server.Client.Upload.Sender.{
  Channel, running, blocked, looping, crashed, capacity, receives, is_endless, deliver, reported,
  run, calls, sender,
}
use sdcio_schema_server.Client.Upload.{Files}
use sdcio_schema_server.Server.Os.{Os}
use sdcio_schema_server.Sdcpb.{UploadSchemaRequest, SchemaName}

-- The errors that the sender has reported, the first of them received.
abbrev reports : Channel → ℕ
reports c = length c.received + length c.held

abbrev IsChannel : Channel → Type 0
IsChannel c =
    (length c.received ≤ receives)
    × (length c.held ≤ capacity)
    × (length c.received ≢ receives → length c.held ≡ 0)

module _ {S : Type 0} where
  abbrev pub count : (S → ℕ) → Result (Unit {0}) × S → ℕ
  count next (ok u, s) = next s
  count next (err e, s) = if is_endless e then 0 else suc (next s)
  count next (panic, s) = 0

  -- How many of the calls fail, one after another, up to a panic or a call without an end.
  unfoldable pub failures : List (Io S (Unit {0})) → S → ℕ
  failures [] s = 0
  failures (m ∷ ms) s = count (failures ms) (m s)

  abbrev Blocks : List (Io S (Unit {0})) → Type 0
  Blocks ms =
      (c : Channel) (s : S)
      → IsChannel c
      → ((run ms (running c, s)).0 ≡ blocked) ↔ (3 ≤ reports c + failures ms s)

  run_blocked : (ms : List (Io S (Unit {0}))) (s : S) → (run ms (blocked, s)).0 ≡ blocked
  unfolding run
  run_blocked [] s = refl
  run_blocked (m ∷ ms) s = refl

  run_crashed : (ms : List (Io S (Unit {0}))) (s : S) → (run ms (crashed, s)).0 ≡ crashed
  unfolding run
  run_crashed [] s = refl
  run_crashed (m ∷ ms) s = refl

  run_looping : (ms : List (Io S (Unit {0}))) (s : S) → (run ms (looping, s)).0 ≡ looping
  unfolding run
  run_looping [] s = refl
  run_looping (m ∷ ms) s = refl

  after_deliver :
      (ms : List (Io S (Unit {0}))) (c : Channel) (e : Error) (s : S)
      → Blocks ms
      → IsChannel c
      → ((run ms (deliver e c, s)).0 ≡ blocked) ↔ (3 ≤ reports c + suc (failures ms s))
  unfolding deliver
  after_deliver ms c e s rest (r, h, first) = elim (Bool-cases (ltb (length c.received) receives)) [
    | inl awaited ↦ rw awaited (
        let (there, back) =
          rest (record c { received = c.received ++ e ∷ [] }) s
            (ground (arith, length-append c.received (e ∷ []))) in
        (
          λ k. omega (arith, there k, length-append c.received (e ∷ [])),
          λ k. back (omega (arith, length-append c.received (e ∷ []))),
        ))
    | inr taken ↦ rw taken (elim (Bool-cases (ltb (length c.held) capacity)) [
      | inl room ↦ rw room (
          let (there, back) =
            rest (record c { held = c.held ++ e ∷ [] }) s
              (ground (arith, length-append c.held (e ∷ []))) in
          (
            λ k. omega (arith, there k, length-append c.held (e ∷ [])),
            λ k. back (omega (arith, length-append c.held (e ∷ []))),
          ))
      | inr full ↦ rw (full, run_blocked ms s) (λ k. ground arith, λ k. refl)
    ])
  ]

  after_call :
      (ms : List (Io S (Unit {0}))) (c : Channel) (r : Result (Unit {0}) × S)
      → Blocks ms
      → IsChannel c
      → ((run ms (reported c r)).0 ≡ blocked) ↔ (3 ≤ reports c + count (failures ms) r)
  unfolding reported
  after_call ms c (ok u, s) rest h = rest c s h
  after_call ms c (panic, s) rest h = (λ k. cc (run_crashed ms s), λ k. absurd (omega arith))
  after_call ms c (err e, s) rest h = elim (Bool-cases (is_endless e)) [
    | inl endless ↦ rw endless (λ k. cc (run_looping ms s), λ k. absurd (omega arith))
    | inr real ↦ rw real (after_deliver ms c e s rest h)
  ]

  blocks : (ms : List (Io S (Unit {0}))) → Blocks ms
  unfolding run failures
  blocks [] c s h = (λ k. cc, λ k. absurd (omega arith))
  blocks (m ∷ ms) c s h = after_call ms c (m s) (blocks ms) h

  -- The sender waits forever exactly if three of its calls fail, and none before the third is a
  -- panic or comes to no end.
  pub sender-blocked :
      (os : Os) (files : Files) (send : UploadSchemaRequest → Io S (Unit {0})) (size rounds : ℕ)
      (method : Str) (n : SchemaName) (excludes modules dirs : List Str) (s : S)
      → ((sender os files send size rounds method n excludes modules dirs s).0 ≡ blocked)
        ↔ (3 ≤ failures (calls os files send size rounds method n excludes modules dirs) s)
  unfolding sender
  sender-blocked os files send size rounds method n excludes modules dirs s =
      let start : Channel = record { received = []; held = [] } in
      let (there, back) =
        blocks (calls os files send size rounds method n excludes modules dirs) start s
          (ground arith) in
      (λ k. omega (arith, there k), λ k. back (omega arith))
