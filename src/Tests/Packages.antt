-- ===== src/Tests/Packages.antt =====
-- The packer and its buffer at concrete inputs.
use elegance.Prelude.{ℕ, ◌≡◌, refl, arith, false, some, none, inl, List, [], ◌∷◌, flatten, ◌==◌}
use elegance.Prelude.Map.{find, nat_key}
use elegance.Buffer.{FlexibleBuffer, change_buffer_size}
use elegance.Buffer.Laws.{holding, resized, change_buffer_size-resized, change_buffer_size-twice}
use elegance.Packer.{Packer, Package, done, fault, unpack_all}
use elegance.Packer.Stream.{head, receive_all}
use elegance.Packer.Cache.{Holds}
use elegance.Packer.Refine.{InStep}
use elegance.Packer.Delivery.{
  pack_all, pack_all-frames, unpack_all-InStep, unpack_all-pack_all, unpack_all-negative,
}

-- Two packages, and their bytes in three pieces.
abbrev packages : List Package
packages = (5 ∷ 6 ∷ []) ∷ (9 ∷ []) ∷ []

abbrev pieces : List (List ℕ)
pieces = (2 ∷ 0 ∷ []) ∷ (0 ∷ 0 ∷ 5 ∷ []) ∷ (6 ∷ 1 ∷ 0 ∷ 0 ∷ 0 ∷ 9 ∷ []) ∷ []

pack_all_packages : pack_all packages ≡ some (flatten pieces)
pack_all_packages =
    pack_all-frames packages ((omega arith, omega arith), ((omega arith, omega arith), tt))

unpack_all-pack_all_example :
    (m' : Packer) × (unpack_all 1 pieces [] ≡ done (m', packages))
    × Holds (find 1 m') (head [])
    × ((j : ℕ) → (1 == j) ≡ false → find j m' ≡ find j [])
unfolding find
unpack_all-pack_all_example =
    unpack_all-pack_all 1 [] packages pieces refl
      ((omega arith, omega arith), ((omega arith, omega arith), tt))
      (omega arith, (omega arith, (omega arith, tt))) pack_all_packages

unpack_all-InStep_example :
    InStep 1 [] (unpack_all 1 pieces []) (receive_all (head []) (flatten pieces))
unfolding find
unpack_all-InStep_example =
    unpack_all-InStep 1 pieces [] (head []) (inl (refl, refl))
      (omega arith, (omega arith, (omega arith, tt)))

unpack_all-negative_example : unpack_all 1 ((0 ∷ 0 ∷ 0 ∷ 128 ∷ []) ∷ (7 ∷ []) ∷ []) [] ≡ fault
unfolding find
unpack_all-negative_example =
    unpack_all-negative 1 [] (0 ∷ 0 ∷ 0 ∷ 128 ∷ []) (7 ∷ []) refl refl (omega arith) (omega arith)

change_buffer_size-resized_example :
    change_buffer_size 4 (holding (1 ∷ 2 ∷ [])) ≡ some (holding (resized 4 (1 ∷ 2 ∷ [])))
change_buffer_size-resized_example = change_buffer_size-resized (1 ∷ 2 ∷ []) 4 (omega arith)

change_buffer_size-twice_example :
    (b : FlexibleBuffer) × (change_buffer_size 0 (holding (1 ∷ [])) ≡ some b)
    × (change_buffer_size 4 b ≡ none)
change_buffer_size-twice_example = change_buffer_size-twice (1 ∷ []) 4 (omega arith) (omega arith)
