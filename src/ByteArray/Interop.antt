-- ===== src/ByteArray/Interop.antt =====
-- Values that pass from one kind of byte array to the other.
use elegance.Prelude.{
  ℕ, ◌+◌, ◌≤◌, ◌≡◌, ap, ap₂, sym, ◌∙◌, some, List, [], ◌++◌, arith, length, append-nil, take_all,
  drop_all,
}
use elegance.Prelude.Int.{pos}
use elegance.ByteArray.{little_endian}
use elegance.ByteArray.Items.{Item, AllFit, items_bytes}
use elegance.ByteArray.Queue.{QueueByteArray}
use elegance.ByteArray.Queue.Words.{on}
use elegance.ByteArray.Queue.Script as QueueScript
use elegance.ByteArray.Static.{StaticByteArray, max_msg_length}
use elegance.ByteArray.Static.Safety.{IsValid, contents}
use elegance.ByteArray.Static.Script as StaticScript
use elegance.ByteArray.Static.RoundTrip.{write_items-Writes}
use elegance.ByteArray.Transfer.{read_into_queue, static_source}
use elegance.ByteArray.Transfer.Laws.{static_lawful, read_into_queue-moves}

-- Values in the ranges of their types that are written to a valid `StaticByteArray` with room and
-- nothing unread: `ReadFromByteArray` with its default length, of an empty little-endian
-- `QueueByteArray`, takes them over, and they are read from that queue in order, which is empty
-- afterwards, as the other array is.
pub read_items-read_into_queue :
    (beyond : ℕ) (is : List Item) (s : StaticByteArray) (q : QueueByteArray)
    → IsValid s
    → contents s ≡ []
    → AllFit is
    → s.has_write_length + length (items_bytes little_endian is) ≤ max_msg_length
    → q.cur_endian ≡ little_endian
    → q.bytes_queue ≡ []
    → (written rest : StaticByteArray) × (filled : QueueByteArray) × (StaticScript.write_items is s
        ≡ some written)
      × (read_into_queue (pos 0) q written ≡ some (filled, rest))
      × (QueueScript.read_items beyond is filled ≡ (is, on little_endian []))
      × (contents rest ≡ [])
read_items-read_into_queue beyond is s q v none_unread f room little empty =
    let (r, p, a) = write_items-Writes is s v f room in
    let held : contents r ≡ items_bytes little_endian is =
      a.appended ∙ ap (λ c. c ++ items_bytes little_endian is) none_unread in
    let (rest, m, e, _) =
      read_into_queue-moves (pos 0) q r a.valid (omega (arith, ap length held)) in
    let filled : on q.cur_endian (q.bytes_queue ++ contents r)
        ≡ on little_endian (items_bytes little_endian is ++ []) =
      ap₂ on little (ap₂ ◌++◌ empty held ∙ sym (append-nil (items_bytes little_endian is))) in
    (
      r,
      rest,
      on q.cur_endian (q.bytes_queue ++ contents r),
      p,
      m ∙ ap (λ bs. some (on q.cur_endian (q.bytes_queue ++ bs), rest)) (take_all (contents r)),
      ap (QueueScript.read_items beyond is) filled
          ∙ QueueScript.read_items-bytes beyond little_endian is [] f,
      e ∙ drop_all (contents r),
    )
