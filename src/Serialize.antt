-- ===== src/Serialize.antt =====
-- elegance/memory/serialize: `SerializeNetworkManager`, which sends an object as the name of its
-- class and what the object writes of itself, and makes an object of what it receives. The classes
-- that implement `SerializeBase` and `SerializeDescribe` are the user's: they are the interface
-- `SerializeBase`. A `SerializeDescribe` goes by a number for its address.
pub mod RoundTrip
use elegance.Prelude.{
  ℕ, ◌+◌, ◌-◌, ◌*◌, ◌^◌, Bool, true, false, Option, none, some, List, [], ◌∷◌, length, take, drop,
  map, ltb, leb, ◌==◌, if◌then◌else◌,
}
use elegance.Prelude.Int.{ℤ, pos, negsuc, signed}
use elegance.Prelude.Bytes.{from_little}
use elegance.Prelude.Map.{Map, find}
use elegance.Prelude.Strings.{string_key}
use elegance.ByteArray.Queue.{
  QueueByteArray, new_queue, bytes_available, write_string, read_object, write_object,
}
use elegance.ByteArray.Static.{c_string}
use elegance.Packer.{Run, done, fault, out_of_fuel}
use elegance.Network.Manager
use elegance.Network.Manager.{
  NetworkManager, Calls, has_handler, insert_handler, erase_handler, regist_handler,
  unregist_handler,
}
use elegance.Network.Manager.Raw.{Writes, send}

-- SERIALIZE_CLASS_NAME_MAX_LEN
abbrev pub serialize_class_name_max_len : ℕ
serialize_class_name_max_len = 256

-- The virtual functions of an object, and of its description: `create_serialize` gives the new
-- object, or nothing for a null pointer.
pub record SerializeBase (Obj : Type 0) : Type 0 where
  pub get_type_name : Obj → List ℕ
  pub serialize : Obj → QueueByteArray → QueueByteArray
  pub unserialize : QueueByteArray → Obj → Obj × QueueByteArray
  pub create_serialize : ℕ → Option Obj

pub record SerializeNetworkManager : Type 0 where
  pub base : NetworkManager
  pub serialize_handler_list : List ℕ

unfoldable pub regist_serialize_handler : ℕ → SerializeNetworkManager → SerializeNetworkManager
regist_serialize_handler h m = record {
  base = regist_handler h m.base;
  serialize_handler_list =
      if has_handler h m.serialize_handler_list
      then m.serialize_handler_list
      else insert_handler h m.serialize_handler_list;
}

unfoldable pub unregist_serialize_handler : ℕ → SerializeNetworkManager → SerializeNetworkManager
unregist_serialize_handler h m = record {
  base = unregist_handler h m.base;
  serialize_handler_list = erase_handler h m.serialize_handler_list;
}

module _ {Obj : Type 0} ⦃class : SerializeBase Obj⦄ where
  -- The array that `SendSerialize` fills.
  unfoldable pub written : Obj → QueueByteArray
  written obj = class.serialize obj (write_string (class.get_type_name obj) new_queue)

  -- The length goes to `Send` as an `int`; `send` is `none` for one that is none.
  unfoldable pub send_serialize : ℕ → Obj → SerializeNetworkManager → Option Writes
  send_serialize net_id obj m = elim (read_object (written obj) (bytes_available (written obj))).0 [
    | none ↦ some []
    | some char_data ↦ send net_id char_data m.base
  ]

  -- `SerializeDescribe::CreateSerialize`, with the map from names to descriptions.
  unfoldable pub create_by_name : Map (List ℕ) ℕ → List ℕ → Option Obj
  create_by_name objects class_name = elim (find class_name objects) [
    | none ↦ none
    | some description ↦ class.create_serialize description
  ]

  -- The object that a package makes, if it makes one. A read behind the package is a fault, so the
  -- test of `serialize_len` has nothing left to refuse.
  unfoldable pub object_of : Map (List ℕ) ℕ → ℤ → List ℕ → Run (Option Obj)
  object_of objects (negsuc n) bytes = done none
  object_of objects (pos name_len) bytes =
      if name_len == 0
      then done none
      else if leb serialize_class_name_max_len name_len
      then done none
      else if ltb (length bytes) (2 + name_len)
      then fault
      else (elim (create_by_name objects (c_string (take name_len (drop 2 bytes)))) [
        | none ↦ done none
        | some obj ↦
            (let serialize_len = length bytes - 2 - name_len in
              let by =
                write_object (drop (length bytes - serialize_len) bytes) (pos serialize_len)
                  new_queue in
              done (some (class.unserialize by obj).0))
      ])

  -- `OnRecvPackage` behind that of `NetworkManager`.
  unfoldable pub read_package : Map (List ℕ) ℕ → List ℕ → Run (Option Obj)
  read_package objects bytes =
      if ltb (length bytes) 2
      then fault
      else object_of objects (signed (2 ^ 15) (from_little (take 2 bytes))) bytes

  -- The calls of the handlers with the object.
  abbrev pub object_calls : List ℕ → Option Obj → List (ℕ × Obj)
  object_calls hs none = []
  object_calls hs (some obj) = map (λ h. (h, obj)) hs

  abbrev pub with_object :
      SerializeNetworkManager
      → Calls
      → Run (Option Obj)
      → Run (SerializeNetworkManager × Calls × List (ℕ × Obj))
  with_object m calls (done o) = done (m, calls, object_calls m.serialize_handler_list o)
  with_object m calls fault = fault
  with_object m calls out_of_fuel = out_of_fuel

  -- `OnRecvPackage`: the calls of the handlers with the package, then those with the object.
  unfoldable pub on_recv_package :
      Map (List ℕ) ℕ
      → ℕ
      → List ℕ
      → SerializeNetworkManager
      → Run (SerializeNetworkManager × Calls × List (ℕ × Obj))
  on_recv_package objects net_id bytes m = elim (Manager.on_recv_package net_id bytes m.base) [
    | done (b, calls) ↦ with_object (record m { base = b }) calls (read_package objects bytes)
    | fault ↦ fault
    | out_of_fuel ↦ out_of_fuel
  ]
