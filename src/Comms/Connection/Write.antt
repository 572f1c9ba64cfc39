-- ===== src/Comms/Connection/Write.antt =====
-- `Write` and `SendData` of comms/connection.go.
use ngbigcache.Base.{
  ℕ, ◌+◌, ◌-◌, ◌≤◌, ◌≡◌, refl, ap, subst, Bool, true, false, if◌then◌else◌, Option, none, some,
  List, [], ◌∷◌, ◌++◌, length, take, drop, Bytes, arith, Bool-cases, inl, inr, length-drop,
}
use mathlib.Core.Option.{some-injective}
use ngbigcache.Comms.Connection.{
  Connection, ConnectionError, WriteAnswer, connection_unusable, wrote, write_failed, send_loop,
  send_data, write_loop, write,
}

-- What `SendData` returns of the results of `Write`.
abbrev pub without_count :
    Option (Connection × ℕ × Option ConnectionError) → Option (Connection × Option ConnectionError)
without_count none = none
without_count (some (c, count, e)) = some (c, e)

-- No answer says that more bytes were written than were given.
abbrev pub AllFit : List WriteAnswer → ℕ → Type 0
AllFit [] size = Unit
AllFit (wrote n ∷ answers) size = (n ≤ size) × AllFit answers (size - n)
AllFit (write_failed n e ∷ answers) size = n ≤ size

write_loop-send_loop :
    (answers : List WriteAnswer) (c : Connection) (count : ℕ) (bytes : Bytes)
    → without_count (write_loop answers c count bytes) ≡ send_loop answers c bytes
unfolding write_loop send_loop
write_loop-send_loop [] c count [] = refl
write_loop-send_loop (x ∷ answers) c count [] = refl
write_loop-send_loop [] c count (b ∷ rest) = refl
write_loop-send_loop (wrote n ∷ answers) c count (b ∷ rest) =
    write_loop-send_loop answers (record c { sent = c.sent ++ take n (b ∷ rest) }) (count + n)
      (drop n (b ∷ rest))
write_loop-send_loop (write_failed n e ∷ answers) c count (b ∷ rest) = refl

same_count :
    (c c' : Connection) (count count' : ℕ)
    → ◌≡◌ {A = Option (Connection × ℕ × Option ConnectionError)}
        (some (c, count, none))
        (some (c', count', none))
    → count' ≡ count + 0
same_count c c' count count' e =
    omega (arith, ap (λ (y : Connection × ℕ × Option ConnectionError). y.1) (some-injective _ _ e))

no_error :
    (c c' : Connection) (count count' : ℕ) (x : ConnectionError)
    → ¬ ◌≡◌ {A = Option (Connection × ℕ × Option ConnectionError)}
        (some (c, count, some x))
        (some (c', count', none))
no_error c c' count count' x e = absurd (
    let p : some x ≡ none =
      ap (λ (y : Connection × ℕ × Option ConnectionError). y.2) (some-injective _ _ e) in
    cc)

write_loop-count :
    (answers : List WriteAnswer) (c c' : Connection) (count count' : ℕ) (bytes : Bytes)
    → AllFit answers (length bytes)
    → write_loop answers c count bytes ≡ some (c', count', none)
    → count' ≡ count + length bytes
unfolding write_loop
write_loop-count [] c c' count count' [] fit e = same_count c c' count count' e
write_loop-count (x ∷ answers) c c' count count' [] fit e = same_count c c' count count' e
write_loop-count [] c c' count count' (b ∷ rest) fit e = absurd (cc)
write_loop-count (wrote n ∷ answers) c c' count count' (b ∷ rest) fit e = omega (
  arith,
  fit.0,
  length-drop n (b ∷ rest),
  write_loop-count answers (record c { sent = c.sent ++ take n (b ∷ rest) }) c' (count + n) count'
      (drop n (b ∷ rest)) (rw (length-drop n (b ∷ rest)) fit.1) e,
)
write_loop-count (write_failed n x ∷ answers) c c' count count' (b ∷ rest) fit e =
    absurd (no_error _ c' count count' x e)

-- What a `Write` without an error says, with the test on the connection open.
abbrev Chosen : List WriteAnswer → Connection → Bytes → Connection → ℕ → Bool → Type 0
Chosen answers c bytes c' count u =
    (if u then write_loop answers c 0 bytes else some (c, 0, some connection_unusable))
    ≡ some (c', count, none)

-- `Write` and `SendData` of the same data, with the same answers of the operating system, leave the
-- same connection and return the same error; and if `Write` returns without an error, and no answer
-- says that more bytes were written than were given, then it returns the number of all bytes.
pub write-send_data :
    (answers : List WriteAnswer) (c : Connection) (bytes : Bytes)
    → (without_count (write answers c bytes) ≡ send_data answers c bytes)
      × ((c' : Connection) (count : ℕ)
          → AllFit answers (length bytes)
          → write answers c bytes ≡ some (c', count, none)
          → count ≡ length bytes)
unfolding write send_data
write-send_data answers c bytes = (
  both c.usable,
  λ c' count fit e. elim (Bool-cases c.usable) [
    | inl t ↦
        let opened = subst (Chosen answers c bytes c' count) t e in
        omega (arith, write_loop-count answers c c' 0 count bytes fit opened)
    | inr f ↦
        absurd
          (no_error c c' 0 count connection_unusable (subst (Chosen answers c bytes c' count) f e))
  ],
)
  where
    both :
        (u : Bool)
        → without_count
            (if u then write_loop answers c 0 bytes else some (c, 0, some connection_unusable))
          ≡ (if u then send_loop answers c bytes else some (c, some connection_unusable))
    both true = write_loop-send_loop answers c 0 bytes
    both false = refl
