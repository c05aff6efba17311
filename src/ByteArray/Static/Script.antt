-- ===== src/ByteArray/Static/Script.antt =====
-- Every kind of value written to a `StaticByteArray` and read back.
use elegance.Prelude.{ℕ, ◌≢◌, some, List, [], ◌∷◌}
use elegance.ByteArray.Items.{
  Item, int8, int16, int32, int64, uint8, uint16, uint32, uint64, float, double, string,
}
use elegance.ByteArray.Static.{
  StaticByteArray, Faulty, ◌>>=◌, read_uint8, read_uint16, read_uint32, read_uint64, read_int8,
  read_int16, read_int32, read_int64, write_uint8, write_uint16, write_uint32, write_uint64,
  write_int8, write_int16, write_int32, write_int64, read_string, write_string,
}

unfoldable pub write_item : Item → StaticByteArray → Faulty StaticByteArray
write_item (int8 z) s = write_int8 z s
write_item (int16 z) s = write_int16 z s
write_item (int32 z) s = write_int32 z s
write_item (int64 z) s = write_int64 z s
write_item (uint8 n) s = write_uint8 n s
write_item (uint16 n) s = write_uint16 n s
write_item (uint32 n) s = write_uint32 n s
write_item (uint64 n) s = write_uint64 n s
write_item (float n) s = write_uint32 n s
write_item (double n) s = write_uint64 n s
write_item (string str) s = write_string str s

-- Reads a value of the kind of the given one.
unfoldable pub read_like : Item → StaticByteArray → Faulty (Item × StaticByteArray)
read_like (int8 z) s = do (v, r) ← read_int8 s; some (int8 v, r)
read_like (int16 z) s = do (v, r) ← read_int16 s; some (int16 v, r)
read_like (int32 z) s = do (v, r) ← read_int32 s; some (int32 v, r)
read_like (int64 z) s = do (v, r) ← read_int64 s; some (int64 v, r)
read_like (uint8 n) s = do (v, r) ← read_uint8 s; some (uint8 v, r)
read_like (uint16 n) s = do (v, r) ← read_uint16 s; some (uint16 v, r)
read_like (uint32 n) s = do (v, r) ← read_uint32 s; some (uint32 v, r)
read_like (uint64 n) s = do (v, r) ← read_uint64 s; some (uint64 v, r)
read_like (float n) s = do (v, r) ← read_uint32 s; some (float v, r)
read_like (double n) s = do (v, r) ← read_uint64 s; some (double v, r)
read_like (string str) s = do (v, r) ← read_string s; some (string v, r)

unfoldable pub write_items : List Item → StaticByteArray → Faulty StaticByteArray
write_items [] s = some s
write_items (i ∷ is) s = do r ← write_item i s; write_items is r

unfoldable pub read_items : List Item → StaticByteArray → Faulty (List Item × StaticByteArray)
read_items [] s = some ([], s)
read_items (i ∷ is) s = do (v, r) ← read_like i s; (vs, r') ← read_items is r; some (v ∷ vs, r')

-- `ReadString` stops a string at its first null byte.
abbrev pub NoNull : List ℕ → Type 0
NoNull [] = Unit {0}
NoNull (b ∷ bs) = (b ≢ 0) × NoNull bs

abbrev pub ItemNoNull : Item → Type 0
ItemNoNull (string str) = NoNull str
ItemNoNull i = Unit {0}

abbrev pub StringsNoNull : List Item → Type 0
StringsNoNull [] = Unit {0}
StringsNoNull (i ∷ is) = ItemNoNull i × StringsNoNull is
