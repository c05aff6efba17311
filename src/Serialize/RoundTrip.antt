-- ===== src/Serialize/RoundTrip.antt =====
-- elegance/memory/serialize/serialize_manager.cpp: an object from `SendSerialize` to `OnRecvPackage`.
use elegance.Prelude.{
  ℕ, suc, ap₂, ◌+◌, ◌-◌, ◌^◌, ◌<◌, ◌≡◌, refl, ap, ◌∙◌, false, none, some, List, [], ◌∷◌, ◌++◌,
  length, take, drop, map, arith, leb, ltb, ◌==◌, take_prefix, drop_prefix, take_all, length-append,
}
use elegance.Prelude.Int.{pos, signed}
use elegance.Prelude.Bytes.{from_little, little_bytes, from_little-little_bytes_2}
use elegance.Prelude.Map.{Map, find}
use elegance.Prelude.Strings.{string_key, Without}
use elegance.ByteArray.{little_endian}
use elegance.ByteArray.Queue.{QueueByteArray, new_queue, bytes_available, read_object, write_object}
use elegance.ByteArray.Queue.Words.{on}
use elegance.ByteArray.Queue.Script.{write_string-bytes}
use elegance.ByteArray.Static.{c_string}
use elegance.Packer.{done}
use elegance.Packer.Delivery.{frame}
use elegance.Network.Manager
use elegance.Network.Manager.{NetworkManager, Calls, on_recv_call, call_handlers, notify}
use elegance.Network.Manager.Raw.{send, IsAccepted, send-frame}
use elegance.Serialize.{
  SerializeBase, SerializeNetworkManager, written, send_serialize, create_by_name, object_of,
  read_package, on_recv_package,
}

c_string-Without : (s : List ℕ) → Without 0 s → c_string s ≡ s
unfolding c_string
c_string-Without [] h = refl
c_string-Without (b ∷ s) h =
    let other : (b == 0) ≡ false = ground (arith, h.0) in rw (other, c_string-Without s h.1)

-- What the user's class has to do for an object: append some bytes to the array, and make the
-- object of these bytes alone, from what its description creates.
pub record RoundTrips {Obj : Type 0} ⦃class : SerializeBase Obj⦄ (obj : Obj) (blank : Obj)
    (body : List ℕ) : Type 0 where
  pub writes :
      (bs : List ℕ) → class.serialize obj (on little_endian bs) ≡ on little_endian (bs ++ body)
  pub reads : (class.unserialize (on little_endian body) blank).0 ≡ obj

-- The package of an object.
abbrev pub object_bytes : List ℕ → List ℕ → List ℕ
object_bytes name body = little_bytes 2 (length name) ++ (name ++ body)

-- `ReadObject` of as many bytes as there are.
read_object-all : (q : QueueByteArray) → (read_object q (bytes_available q)).0 ≡ some q.bytes_queue
unfolding read_object bytes_available
read_object-all q = ground (arith, take_all q.bytes_queue)

signed-little_bytes : (n : ℕ) → n < 256 → signed (2 ^ 15) (from_little (little_bytes 2 n)) ≡ pos n
signed-little_bytes n h = ground (arith, from_little-little_bytes_2 n)

-- What is behind the name.
write_object-rest :
    (name body : List ℕ)
    → write_object
        (drop
          (length (object_bytes name body) - (length (object_bytes name body) - 2 - length name))
          (object_bytes name body))
        (pos (length (object_bytes name body) - 2 - length name))
        new_queue
      ≡ on little_endian body
unfolding write_object new_queue
write_object-rest name body =
    let n : length (object_bytes name body) - 2 - length name ≡ length body =
      omega (arith, length-append name body) in
    let front : length (object_bytes name body)
          - (length (object_bytes name body) - 2 - length name)
        ≡ suc (suc (length name)) =
      omega (arith, length-append name body) in
    ap₂ (λ k l. write_object (drop k (object_bytes name body)) (pos l) new_queue) front n
    ∙ rw (drop_prefix name body, take_all body)

-- A package outside single-thread mode.
on_recv_package-direct :
    (id : ℕ) (bytes : List ℕ) (m : NetworkManager)
    → 0 < id
    → 0 < length bytes
    → m.single_thread_handle_mode ≡ false
    → Manager.on_recv_package id bytes m ≡ done (m, call_handlers (on_recv_call id bytes) m)
unfolding Manager.on_recv_package notify
on_recv_package-direct id bytes m positive some_bytes direct =
    let known : (id == 0) ≡ false = ground arith in
    let present : (length bytes == 0) ≡ false = ground arith in
    rw (Manager.on_recv_package, known, present, direct, notify)

module _ {Obj : Type 0} ⦃class : SerializeBase Obj⦄ (obj blank : Obj) (body : List ℕ) where
  written-object_bytes :
      RoundTrips obj blank body
      → length (class.get_type_name obj) < 256
      → written obj ≡ on little_endian (object_bytes (class.get_type_name obj) body)
  unfolding written new_queue
  written-object_bytes law short =
      ap (class.serialize obj)
        (write_string-bytes little_endian (class.get_type_name obj) [] (omega arith))
      ∙ law.writes _

  send_serialize-object_bytes :
      (id : ℕ) (m : SerializeNetworkManager)
      → RoundTrips obj blank body
      → length (class.get_type_name obj) < 256
      → send_serialize id obj m ≡ send id (object_bytes (class.get_type_name obj) body) m.base
  unfolding send_serialize read_object bytes_available
  send_serialize-object_bytes id m law short =
      ap (λ o. elim o [ none ↦ some [] | some char_data ↦ send id char_data m.base ])
        (read_object-all (written obj))
      ∙ ap (λ q. send id q.bytes_queue m.base) (written-object_bytes law short)

  object_of-object_bytes :
      (objects : Map (List ℕ) ℕ) (description : ℕ)
      → RoundTrips obj blank body
      → 0 < length (class.get_type_name obj)
      → length (class.get_type_name obj) < 256
      → Without 0 (class.get_type_name obj)
      → find (class.get_type_name obj) objects ≡ some description
      → class.create_serialize description ≡ some blank
      → object_of objects
          (pos (length (class.get_type_name obj)))
          (object_bytes (class.get_type_name obj) body)
        ≡ done (some obj)
  unfolding object_of create_by_name new_queue write_object
  object_of-object_bytes objects description law named short no_null known created =
      let name = class.get_type_name obj in
      let some_name : (length name == 0) ≡ false = ground arith in
      let fits : leb 256 (length name) ≡ false = ground arith in
      let whole : ltb (length (object_bytes name body)) (2 + length name) ≡ false =
        ground (arith, length-append name body) in
      let string : c_string (take (length name) (drop 2 (object_bytes name body))) ≡ name =
        ap c_string (take_prefix name body) ∙ c_string-Without name no_null in
      rw (
        object_of,
        some_name,
        fits,
        whole,
        create_by_name,
        string,
        known,
        created,
        write_object-rest name body,
        law.reads,
      )

  read_package-object_bytes :
      (objects : Map (List ℕ) ℕ) (description : ℕ)
      → RoundTrips obj blank body
      → 0 < length (class.get_type_name obj)
      → length (class.get_type_name obj) < 256
      → Without 0 (class.get_type_name obj)
      → find (class.get_type_name obj) objects ≡ some description
      → class.create_serialize description ≡ some blank
      → read_package objects (object_bytes (class.get_type_name obj) body) ≡ done (some obj)
  unfolding read_package object_of create_by_name
  read_package-object_bytes objects description law named short no_null known created =
      let longer : ltb (length (object_bytes (class.get_type_name obj) body)) 2 ≡ false =
        ground arith in
      rw (read_package, longer)
        (ap (λ z. object_of objects z (object_bytes (class.get_type_name obj) body))
            (signed-little_bytes (length (class.get_type_name obj)) short)
          ∙ object_of-object_bytes objects description law named short no_null known created)

  -- An object of a class whose name has 1 to 255 bytes, none of them null, is sent on an accepted
  -- connection, where the name and what the object writes of itself have fewer than 2 ^ 31 - 6 bytes:
  -- one frame is written to the connection's socket. A manager that knows the connection by a number
  -- above zero, does not use single-thread mode, and has a description for the name, whose new
  -- object takes back what the sent one writes of itself, makes of the package in that frame the
  -- same object: its handlers are called with the package, and then its serialization handlers with
  -- the object, each once and in their order.
  pub on_recv_package-send_serialize :
      (m1 m2 : SerializeNetworkManager) (id1 id2 sock description : ℕ) (objects : Map (List ℕ) ℕ)
      → IsAccepted m1.base id1 sock
      → RoundTrips obj blank body
      → 0 < length (class.get_type_name obj)
      → length (class.get_type_name obj) < 256
      → length (class.get_type_name obj) + length body < 2 ^ 31 - 6
      → Without 0 (class.get_type_name obj)
      → find (class.get_type_name obj) objects ≡ some description
      → class.create_serialize description ≡ some blank
      → 0 < id2
      → m2.base.single_thread_handle_mode ≡ false
      → (bytes : List ℕ) × (send_serialize id1 obj m1 ≡ some ((sock, frame bytes) ∷ []))
        × (on_recv_package objects id2 bytes m2
            ≡ done (
              m2,
              call_handlers (on_recv_call id2 bytes) m2.base,
              map (λ h. (h, obj)) m2.serialize_handler_list,
            ))
  unfolding on_recv_package
  on_recv_package-send_serialize m1 m2 id1 id2 sock description objects accepted law named short
        small no_null known created positive direct =
      let bytes = object_bytes (class.get_type_name obj) body in
      let handled = on_recv_package-direct id2 bytes m2.base positive (ground arith) direct in
      (
        bytes,
        send_serialize-object_bytes id1 m1 law short
            ∙ send-frame m1.base id1 sock bytes
                (omega (arith, small, length-append (class.get_type_name obj) body)) accepted,
        rw (
          on_recv_package,
          handled,
          read_package-object_bytes objects description law named short no_null known created,
        ),
      )
