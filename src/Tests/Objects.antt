-- ===== src/Tests/Objects.antt =====
-- Objects that are sent, at concrete inputs.
use elegance.Prelude.{ℕ, ◌≡◌, refl, arith, some, List, [], ◌∷◌, map}
use elegance.Prelude.Map.{find-insert_same, insert}
use elegance.Prelude.Strings.{string_key}
use elegance.ByteArray.Queue.{read_uint8, write_uint8}
use elegance.Packer.{done}
use elegance.Packer.Delivery.{frame}
use elegance.Network.Manager.{call_handlers, on_recv_call}
use elegance.Serialize.{SerializeBase, SerializeNetworkManager, send_serialize, on_recv_package}
use elegance.Serialize.RoundTrip.{RoundTrips, on_recv_package-send_serialize}
use elegance.Tests.Managers.{server, server-IsAccepted}

-- A class of objects of one byte, with the name "B" and a description at the address 90.
abbrev name : List ℕ
name = 66 ∷ []

instance abbrev byte_class : SerializeBase ℕ
byte_class = record {
  get_type_name = λ b. name;
  serialize = λ b q. write_uint8 b q;
  unserialize = λ q b. read_uint8 q;
  create_serialize = λ d. some 0;
}

abbrev manager : SerializeNetworkManager
manager = record { base = server; serialize_handler_list = 200 ∷ [] }

byte-RoundTrips : RoundTrips {Obj = ℕ} 77 0 (77 ∷ [])
unfolding write_uint8 read_uint8
byte-RoundTrips = record { writes = λ bs. refl; reads = refl }

on_recv_package-send_serialize_example :
    (bytes : List ℕ) × (send_serialize {Obj = ℕ} 1 77 manager ≡ some ((7, frame bytes) ∷ []))
    × (on_recv_package {Obj = ℕ} (insert name 90 []) 1 bytes manager
        ≡ done
            (manager, call_handlers (on_recv_call 1 bytes) server, map (λ h. (h, 77)) (200 ∷ [])))
on_recv_package-send_serialize_example =
    on_recv_package-send_serialize 77 0 (77 ∷ []) manager manager 1 1 7 90 (insert name 90 [])
      server-IsAccepted byte-RoundTrips (omega arith) (omega arith) (omega arith) (omega arith, tt)
      (find-insert_same name 90 []) refl (omega arith) refl
