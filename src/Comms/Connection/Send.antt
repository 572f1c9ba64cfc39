-- ===== src/Comms/Connection/Send.antt =====
-- `SendData` of comms/connection.go: what it writes, and when it ends.
use ngbigcache.Base.{
  ℕ, zero, suc, ◌-◌, ◌≤◌, ◌≡◌, ◌∙◌, sym, refl, ap, true, Option, none, some, List, [], ◌∷◌, ◌++◌,
  length, take, drop, Bytes, arith, Bool-cases, inl, inr, subst, if◌then◌else◌,
}
use mathlib.Core.List.{append_assoc, append-nil}
use mathlib.Core.Option.{some-injective}
use ngbigcache.Comms.Connection.{
  Connection, ConnectionError, WriteAnswer, connection_unusable, wrote, write_failed, send_loop,
  send_data,
}

take-drop : (n : ℕ) (xs : Bytes) → take n xs ++ drop n xs ≡ xs
take-drop zero xs = refl
take-drop (suc n) [] = refl
take-drop (suc n) (x ∷ xs) = ap (λ l. x ∷ l) (take-drop n xs)

length-drop : (n : ℕ) (xs : Bytes) → length (drop n xs) ≡ length xs - n
length-drop zero xs = omega arith
length-drop (suc n) [] = omega arith
length-drop (suc n) (x ∷ xs) = omega (arith, length-drop n xs)

-- Every answer takes at least one byte.
abbrev pub AllTake : List WriteAnswer → Type 0
AllTake [] = Unit
AllTake (wrote n ∷ answers) = (1 ≤ n) × AllTake answers
AllTake (write_failed n e ∷ answers) = ⊥

sent_eq :
    (c c' : Connection)
    → ◌≡◌ {A = Option (Connection × Option ConnectionError)} (some (c, none)) (some (c', none))
    → c'.sent ≡ c.sent ++ []
sent_eq c c' e =
    sym (ap (λ (y : Connection × Option ConnectionError). y.0.sent) (some-injective _ _ e))
    ∙ sym (append-nil c.sent)

send_loop-sent :
    (answers : List WriteAnswer) (c c' : Connection) (bytes : Bytes)
    → send_loop answers c bytes ≡ some (c', none)
    → c'.sent ≡ c.sent ++ bytes
unfolding send_loop
send_loop-sent [] c c' [] e = sent_eq c c' e
send_loop-sent (x ∷ answers) c c' [] e = sent_eq c c' e
send_loop-sent [] c c' (b ∷ rest) e = absurd (cc)
send_loop-sent (wrote n ∷ answers) c c' (b ∷ rest) e =
    send_loop-sent answers (record c { sent = c.sent ++ take n (b ∷ rest) }) c' (drop n (b ∷ rest))
      e
    ∙ (append_assoc c.sent (take n (b ∷ rest)) (drop n (b ∷ rest))
        ∙ ap (λ l. c.sent ++ l) (take-drop n (b ∷ rest)))
send_loop-sent (write_failed n x ∷ answers) c c' (b ∷ rest) e = absurd (
    let p : some x ≡ none =
      ap (λ (y : Connection × Option ConnectionError). y.1) (some-injective _ _ e) in
    cc)

-- If `SendData` returns without an error, then the connection was usable and the operating system
-- took exactly the data, in order, after what it had taken before, in whatever pieces.
pub send_data-sent :
    (answers : List WriteAnswer) (c c' : Connection) (bytes : Bytes)
    → send_data answers c bytes ≡ some (c', none)
    → (c.usable ≡ true) × (c'.sent ≡ c.sent ++ bytes)
unfolding send_data
send_data-sent answers c c' bytes e = elim (Bool-cases c.usable) [
  | inl t ↦ (
    t,
    send_loop-sent answers c c' bytes (
        subst
          (λ u.
            (if u then send_loop answers c bytes else some (c, some connection_unusable))
            ≡ some (c', none))
          t e),
  )
  | inr f ↦
      let z : some (c, some connection_unusable) ≡ some (c', none) =
        subst
          (λ u.
            (if u then send_loop answers c bytes else some (c, some connection_unusable))
            ≡ some (c', none))
          f e in
      absurd (
        let p : some connection_unusable ≡ none =
          ap (λ (y : Connection × Option ConnectionError). y.1) (some-injective _ _ z) in
        cc)
]

send_loop-ends :
    (answers : List WriteAnswer) (c : Connection) (bytes : Bytes)
    → AllTake answers
    → length bytes ≤ length answers
    → (c' : Connection) × (send_loop answers c bytes ≡ some (c', none))
unfolding send_loop
send_loop-ends [] c [] h le = (c, refl)
send_loop-ends (x ∷ answers) c [] h le = (c, refl)
send_loop-ends [] c (b ∷ rest) h le = absurd (omega arith)
send_loop-ends (wrote n ∷ answers) c (b ∷ rest) h le =
    send_loop-ends answers (record c { sent = c.sent ++ take n (b ∷ rest) }) (drop n (b ∷ rest)) h.1
      (omega (arith, length-drop n (b ∷ rest), h.0))
send_loop-ends (write_failed n x ∷ answers) c (b ∷ rest) h le = absurd h

-- On a usable connection, if every answer of the operating system takes at least one byte, and there
-- are as many answers as bytes, then `SendData` returns without an error, and the operating system took
-- exactly the data, in order, after what it had taken before.
pub send_data-ends :
    (answers : List WriteAnswer) (c : Connection) (bytes : Bytes)
    → c.usable ≡ true
    → AllTake answers
    → length bytes ≤ length answers
    → (c' : Connection) × (send_data answers c bytes ≡ some (c', none))
      × (c'.sent ≡ c.sent ++ bytes)
unfolding send_data
send_data-ends answers c bytes u h le =
    let (c', e) = send_loop-ends answers c bytes h le in
    let f : send_data answers c bytes ≡ some (c', none) = ground (arith, e, u) in
    (c', f, (send_data-sent answers c c' bytes f).1)
