-- ===== src/ByteArray/Static/Overlong.antt =====
-- `StaticByteArray::WriteString` of a string that its 16-bit length does not describe.
use elegance.Prelude.{
  ℕ, ◌+◌, ◌%◌, ◌^◌, ◌≤◌, ◌≡◌, ap, ap₂, sym, ◌∙◌, some, List, [], ◌++◌, arith, length, take, drop,
  append_assoc, take-append-drop, length-take,
}
use elegance.Prelude.Bytes.{little_bytes}
use elegance.ByteArray.Static.{StaticByteArray, max_msg_length, read_string, write_string, c_string}
use elegance.ByteArray.Static.Safety.{IsValid, contents}
use elegance.ByteArray.Static.Access.{read_string-Reads, write_string-Writes}

-- A string of `len` ≥ 65536 bytes for which a valid array with nothing unread has room is written
-- whole, but under the length `len % 65536`: reading it back gives a string of at most that many
-- bytes, and the rest of the string stays in front of whatever is written next.
pub read_string-write_string_overlong :
    (str : List ℕ) (s : StaticByteArray)
    → IsValid s
    → contents s ≡ []
    → 2 ^ 16 ≤ length str
    → s.has_write_length + length str + 2 ≤ max_msg_length
    → (written final : StaticByteArray) × (write_string str s ≡ some written)
      × (read_string written ≡ some (c_string (take (length str % 2 ^ 16) str), final))
      × (contents final ≡ drop (length str % 2 ^ 16) str)
read_string-write_string_overlong str s v none_unread long room =
    let k = length str % 2 ^ 16 in
    let front = take k str in
    let size : length front ≡ k = omega (arith, length-take k str) in
    let (r, p, a) = write_string-Writes str s v room in
    let split : little_bytes 2 k ++ str ≡ (little_bytes 2 (length front) ++ front) ++ drop k str =
      ap₂ (λ n t. little_bytes 2 n ++ t) (sym size) (sym (take-append-drop k str))
      ∙ sym (append_assoc (little_bytes 2 (length front)) front (drop k str)) in
    let held = a.appended ∙ ap (λ c. c ++ (little_bytes 2 k ++ str)) none_unread ∙ split in
    let (r', p', c) = read_string-Reads front r (drop k str) a.valid (omega (arith, size)) held in
    (r, r', p, p', c.left)
