-- ===== src/Tests/NodeId.antt =====
-- An identity of two letters from a source that always answers 4159, whose first six bits are
-- no index of a letter.
use ngbigcache.Base.{ℕ, ◌≡◌, refl, [], ◌∷◌, some, length, take, In, Bytes, arith}
use mathlib.Core.List.{reverse}
use ngbigcache.Utils.NodeId.{generate_node_id, letter_bytes, letter_at, fill, put_letter, refill}
use ngbigcache.Utils.NodeId.Letters.{drawn_letters, number_letters}
use ngbigcache.Utils.NodeId.Generate.{generate_node_id-letters}

abbrev source : ℕ → ℕ
source drawn = 4159

generate_node_id-letters_example :
    (id : Bytes) × (generate_node_id source 11 2 ≡ some id)
    × (id ≡ reverse (take 2 (drawn_letters source 0 1)))
    × (length id ≡ 2)
    × ((c : ℕ) → In c id → In c letter_bytes)
unfolding drawn_letters number_letters letter_at
generate_node_id-letters_example =
    generate_node_id-letters source 2 0 11 (omega arith) (omega arith)

two_letters : generate_node_id source 11 2 ≡ some (98 ∷ 97 ∷ [])
unfolding generate_node_id fill put_letter letter_at refill
two_letters = refl
