-- ===== src/ByteArray/Transfer.antt =====
-- `ReadFromByteArray` of the two byte arrays, from an array of either kind, and `operator+` and
-- `operator=`, from one of the same kind. `none` is undefined behaviour. The two arrays are distinct
-- objects.
pub mod Laws
pub mod IntoStatic
use elegance.Prelude.{
  ℕ, ◌+◌, ◌*◌, ◌^◌, ◌||◌, Option, none, some, List, [], ltb, ◌==◌, if◌then◌else◌, length, ◌-◌,
}
use elegance.Prelude.Int.{ℤ, int_max, pos, negsuc, signed, unsigned}
use elegance.ByteArray.{Source}
use elegance.ByteArray.Queue
use elegance.ByteArray.Queue.{QueueByteArray}
use elegance.ByteArray.Static
use elegance.ByteArray.Static.{StaticByteArray, ◌>>=◌, max_msg_length}

instance abbrev pub queue_source : Source QueueByteArray
queue_source = record {
  bytes_available = λ q. length q.bytes_queue;
  read_object = λ q n. some (Queue.read_object q n);
}

instance abbrev pub static_source : Source StaticByteArray
static_source = record {
  bytes_available = λ s. s.has_write_length - s.has_read_length;
  read_object = Static.read_object;
}

-- An `int` as an `unsigned int`, and back.
abbrev pub to_uint : ℤ → ℕ
to_uint = unsigned 0x8000_0000

abbrev pub to_int : ℕ → ℤ
to_int = signed 0x8000_0000

-- `WriteObject` of a pointer that may be null: a null pointer is read through unless the length is
-- not positive.
unfoldable pub write_pointer_queue : Option (List ℕ) → ℤ → QueueByteArray → Option QueueByteArray
write_pointer_queue (some obj) z q = some (Queue.write_object obj z q)
write_pointer_queue none (pos n) q = if n == 0 then some q else none
write_pointer_queue none (negsuc n) q = some q

unfoldable pub write_pointer_static : Option (List ℕ) → ℤ → StaticByteArray → Option StaticByteArray
write_pointer_static (some obj) z s = Static.write_object obj z s
write_pointer_static none (pos n) s =
    if ltb int_max (s.has_write_length + n)
    then none
    else if ltb max_msg_length (s.has_write_length + n) || n == 0
    then some s
    else none
write_pointer_static none (negsuc n) s = Static.write_object [] (negsuc n) s

module _ {S : Type 0} ⦃src : Source S⦄ where
  -- The length that `QueueByteArray::ReadFromByteArray` settles on: 0, or more than there is, means
  -- all.
  abbrev pub clamp_length : ℤ → S → ℕ
  clamp_length bytes_len other =
      if to_uint bytes_len == 0 || ltb (src.bytes_available other) (to_uint bytes_len)
      then src.bytes_available other
      else to_uint bytes_len

  unfoldable pub read_into_queue : ℤ → QueueByteArray → S → Option (QueueByteArray × S)
  read_into_queue bytes_len q other = do
    (obj, rest) ← src.read_object other (clamp_length bytes_len other)
    r ← write_pointer_queue obj (to_int (clamp_length bytes_len other)) q
    some (r, rest)

  unfoldable pub read_into_static : ℤ → StaticByteArray → S → Option (StaticByteArray × S)
  read_into_static bytes_len t other =
      if to_uint bytes_len == 0 || ltb (src.bytes_available other) (to_uint bytes_len)
      then some (t, other)
      else (do
        (obj, rest) ← src.read_object other (to_uint bytes_len)
        r ← write_pointer_static obj (to_int (to_uint bytes_len)) t
        some (r, rest))

-- `QueueByteArray::operator+`, which appends to its left operand and empties the right one.
unfoldable pub append_queue :
    QueueByteArray → QueueByteArray → Option (QueueByteArray × QueueByteArray)
append_queue q other = read_into_queue (to_int (queue_source.bytes_available other)) q other

-- `QueueByteArray::operator=`
unfoldable pub assign_queue :
    QueueByteArray → QueueByteArray → Option (QueueByteArray × QueueByteArray)
assign_queue q other =
    read_into_queue (to_int (queue_source.bytes_available other)) (Queue.clear q) other

-- `StaticByteArray::operator+`
unfoldable pub append_static :
    StaticByteArray → StaticByteArray → Option (StaticByteArray × StaticByteArray)
append_static t other = read_into_static (to_int (static_source.bytes_available other)) t other

-- `StaticByteArray::operator=`
unfoldable pub assign_static :
    StaticByteArray → StaticByteArray → Option (StaticByteArray × StaticByteArray)
assign_static t other =
    read_into_static (to_int (static_source.bytes_available other)) (Static.clear t) other
