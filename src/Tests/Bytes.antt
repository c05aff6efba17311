-- ===== src/Tests/Bytes.antt =====
-- The byte arrays at concrete inputs.
use elegance.Prelude.{
  ℕ, ◌+◌, ◌%◌, ◌^◌, ◌≡◌, ◌<◌, ◌≤◌, ◌⊎◌, refl, arith, some, none, List, [], ◌∷◌, length, take, drop,
  replicate, length-replicate,
}
use elegance.Prelude.Int.{pos, negsuc}
use elegance.ByteArray.{little_endian, big_endian}
use elegance.ByteArray.Items.{Item, int16, int32, uint8, string, items_bytes}
use elegance.ByteArray.Queue.{QueueByteArray}
use elegance.ByteArray.Queue.Script as QueueScript
use elegance.ByteArray.Queue.Script.{read_items-write_items}
use elegance.ByteArray.Static.{
  StaticByteArray, max_msg_length, read_string, write_string, write_object, c_string,
}
use elegance.ByteArray.Static.Script as StaticScript
use elegance.ByteArray.Static.Safety.{IsValid, contents, Appends}
use elegance.ByteArray.Static.RoundTrip.{read_items-write_items_static}
use elegance.ByteArray.Static.Overlong.{read_string-write_string_overlong}
use elegance.ByteArray.Static.Total.{
  calls, calls-IsValid, write_string_op, read_string_op, read_object_op, write_object_op, clear_op,
}
use elegance.ByteArray.Transfer.{read_into_queue, read_into_static, queue_source, static_source}
use elegance.ByteArray.Transfer.Laws.{queue_lawful}
use elegance.ByteArray.Transfer.IntoStatic.{read_into_static-moves}
use elegance.ByteArray.Interop.{read_items-read_into_queue}

abbrev empty_queue : QueueByteArray
empty_queue = record { cur_endian = big_endian; bytes_queue = [] }

abbrev little_queue : QueueByteArray
little_queue = record { cur_endian = little_endian; bytes_queue = [] }

abbrev three_bytes : QueueByteArray
three_bytes = record { cur_endian = little_endian; bytes_queue = 1 ∷ 2 ∷ 3 ∷ [] }

abbrev empty_static : StaticByteArray
empty_static = record {
  cur_endian = little_endian;
  buffer_cache = λ i. 0;
  has_read_length = 0;
  has_write_length = 0;
}

abbrev empty_static-IsValid : IsValid empty_static
empty_static-IsValid = record { ordered = omega arith; bounded = omega arith }

abbrev values : List Item
values = int32 (negsuc 4) ∷ uint8 7 ∷ string (104 ∷ 105 ∷ []) ∷ int16 (pos 300) ∷ []

read_items-write_items_example :
    QueueScript.read_items 3 values (QueueScript.write_items 9 values empty_queue)
    ≡ (values, empty_queue)
read_items-write_items_example =
    read_items-write_items 9 3 empty_queue values refl
      (omega arith, (omega arith, (omega arith, (omega arith, tt))))

read_items-write_items_static_example :
    (written final : StaticByteArray) × (StaticScript.write_items values empty_static
      ≡ some written)
    × (contents written ≡ items_bytes little_endian values)
    × (StaticScript.read_items values written ≡ some (values, final))
    × (contents final ≡ [])
    × IsValid final
read_items-write_items_static_example =
    read_items-write_items_static values empty_static empty_static-IsValid refl
      (omega arith, (omega arith, (omega arith, (omega arith, tt))))
      (tt, (tt, ((λ e. omega (arith, e), (λ e. omega (arith, e), tt)), (tt, tt)))) (omega arith)

abbrev long_string : List ℕ
long_string = replicate 65537 120

read_string-write_string_overlong_example :
    (written final : StaticByteArray) × (write_string long_string empty_static ≡ some written)
    × (read_string written
        ≡ some (c_string (take (length long_string % 2 ^ 16) long_string), final))
    × (contents final ≡ drop (length long_string % 2 ^ 16) long_string)
read_string-write_string_overlong_example =
    read_string-write_string_overlong long_string empty_static empty_static-IsValid refl
      (omega (arith, length-replicate {A = ℕ} 65537 120))
      (omega (arith, length-replicate {A = ℕ} 65537 120))

read_into_static-moves_example :
    (t' : StaticByteArray) × (rest : QueueByteArray) × (read_into_static
        (pos 2)
        empty_static
        three_bytes
      ≡ some (t', rest))
    × (rest.bytes_queue ≡ 3 ∷ [])
    × (((empty_static.has_write_length + 2 ≤ max_msg_length) × Appends empty_static (1 ∷ 2 ∷ []) t')
        ⊎ ((max_msg_length < empty_static.has_write_length + 2) × (t' ≡ empty_static)))
read_into_static-moves_example =
    read_into_static-moves 2 empty_static three_bytes empty_static-IsValid tt (omega arith)
      (omega arith) (omega arith)

read_items-read_into_queue_example :
    (written rest : StaticByteArray) × (filled : QueueByteArray) × (StaticScript.write_items values
        empty_static
      ≡ some written)
    × (read_into_queue (pos 0) little_queue written ≡ some (filled, rest))
    × (QueueScript.read_items 3 values filled ≡ (values, little_queue))
    × (contents rest ≡ [])
read_items-read_into_queue_example =
    read_items-read_into_queue 3 values empty_static little_queue empty_static-IsValid refl
      (omega arith, (omega arith, (omega arith, (omega arith, tt)))) (omega arith) refl refl

calls-IsValid_example :
    (t : StaticByteArray) × (calls
        (write_string_op (104 ∷ 105 ∷ [])
          ∷ read_string_op
          ∷ read_object_op 5
          ∷ write_object_op [] 300000
          ∷ clear_op
          ∷ [])
        empty_static
      ≡ some t)
    × IsValid t
calls-IsValid_example =
    calls-IsValid
      (write_string_op (104 ∷ 105 ∷ [])
        ∷ read_string_op
        ∷ read_object_op 5
        ∷ write_object_op [] 300000
        ∷ clear_op
        ∷ [])
      empty_static empty_static-IsValid (omega arith, (tt, (tt, (omega arith, (tt, tt)))))

-- Lengths that are a fault: a sum that is no `int`, and a negative length.
write_object_overflow_test :
    write_object [] (pos 2147483647) (record empty_static { has_write_length = 1 }) ≡ none
unfolding write_object
write_object_overflow_test = refl

write_object_negative_test : write_object [] (negsuc 0) empty_static ≡ none
unfolding write_object
write_object_negative_test = refl
