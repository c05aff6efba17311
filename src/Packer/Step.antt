-- ===== src/Packer/Step.antt =====
-- One call of `UnPack`, up to its call of itself, does what the bytes that it uses ask for.
use elegance.Prelude.{
  ℕ, zero, suc, ◌+◌, ◌*◌, ◌≤◌, ◌<◌, ◌≡◌, ap, ◌∙◌, ◌⊎◌, Option, none, some, List, ◌++◌, arith,
  length, take, drop, length-take, drop_all,
}
use elegance.Buffer.{write_at}
use elegance.Buffer.Laws.{holding, write_at-behind}
use elegance.Packer.{CacheBuffer, Package, Progress}
use elegance.Packer.Stream.{Pending, head, body, with_packages, receive_all}
use elegance.Packer.Cache.{Holds}

-- What is left to do: two calls for a byte, and one more behind a header with the length 0.
abbrev pub work : Pending → List ℕ → ℕ
work (head hs) bytes = 2 * length bytes
work (body zero rs) bytes = 2 * length bytes + 1
work (body (suc w) rs) bytes = 2 * length bytes

-- A call that goes well has used `n` bytes and left the rest.
pub record Advances (bytes : List ℕ) (p : Pending) (m : Option Progress) : Type 0 where
  pub result : CacheBuffer
  pub used : ℕ
  pub packages : List Package
  pub pending : Pending
  pub steps : m ≡ some (result, used, packages)
  pub holds : Holds (some result) pending
  pub within : used ≤ length bytes
  pub agrees : receive_all p bytes ≡ with_packages packages (receive_all pending (drop used bytes))
  pub less : work pending (drop used bytes) < work p bytes

-- Either both the code and the byte-wise reading fail, or the call advances.
abbrev pub Matches : List ℕ → Pending → Option Progress → Type 0
Matches bytes p m = ((m ≡ none) × (receive_all p bytes ≡ none)) ⊎ Advances bytes p m

pub drop_self : (bytes : List ℕ) → length (drop (length bytes) bytes) ≡ 0
drop_self bytes = ap length (drop_all bytes)

-- The copy at the front of both branches: `n` bytes behind what is there.
pub copied :
    (pre tail bytes : List ℕ) (n : ℕ)
    → n ≤ length bytes
    → n ≤ length tail
    → write_at (length pre) (take n bytes) (holding (pre ++ tail))
      ≡ some (holding (pre ++ (take n bytes ++ drop n tail)))
copied pre tail bytes n h k =
    let size : length (take n bytes) ≡ n = omega (arith, length-take n bytes) in
    write_at-behind pre (take n bytes) tail (omega (arith, size))
    ∙ ap (λ j. some (holding (pre ++ (take n bytes ++ drop j tail)))) size
