-- ===== src/Thread/Signal.antt =====
-- elegance/platform/thread/signal.hpp and .cpp: `ISignal` and `SignalManager_`. An `ISignal` goes
-- by a number for its address. The system's `signal` is a call that an operation returns, in order,
-- and `sigint` is the system's SIGINT. The mutexes are left out: one operation runs after another.
use elegance.Prelude.{
  ℕ, ◌≡◌, ◌≢◌, refl, ap, ◌∙◌, Bool, true, false, List, [], ◌∷◌, ◌++◌, arith, ◌==◌, ◌||◌,
  if◌then◌else◌,
}
use elegance.Prelude.Map.{Map, insert, find_or, nat_key}
use elegance.Network.Manager.{has_handler, insert_handler, erase_handler}

-- SignalType::INTERRUPT
abbrev pub interrupt : ℕ
interrupt = 0

pub data Disposition : Type 0 where
  sig_dfl : Disposition
  handle : Disposition

abbrev pub SignalCalls : Type 0
SignalCalls = List (ℕ × Disposition)

-- `type_sets` has the `type_set_` of every `ISignal`.
pub record SignalManager : Type 0 where
  pub type_sets : Map ℕ (List ℕ)
  pub signal_set : List ℕ

unfoldable pub check_type : ℕ → ℕ → SignalManager → Bool
check_type sig type m = has_handler type (find_or sig [] m.type_sets)

-- Whether a signal of the list has the type: an entry of `signal_status_list`.
unfoldable pub status : ℕ → List ℕ → SignalManager → Bool
status type [] m = false
status type (sig ∷ sigs) m = check_type sig type m || status type sigs m

-- A `bool` as an `int`.
unfoldable pub bool_value : Bool → ℕ
bool_value true = 1
bool_value false = 0

-- The second loop of `UpdateSignal`, over the types with their system's signals: the first argument
-- of its second call is the status.
unfoldable pub signal_calls : List (ℕ × ℕ) → SignalManager → SignalCalls
signal_calls [] m = []
signal_calls ((type, real) ∷ rest) m =
    (real, sig_dfl)
    ∷ ((if status type m.signal_set m
          then (bool_value (status type m.signal_set m), handle) ∷ []
          else [])
        ++ signal_calls rest m)

module _ (sigint : ℕ) where
  unfoldable pub update_signal : SignalManager → SignalCalls
  update_signal m = signal_calls ((interrupt, sigint) ∷ []) m

  unfoldable pub add_type : ℕ → ℕ → SignalManager → SignalManager × SignalCalls
  add_type sig type m =
      let types = find_or sig [] m.type_sets in
      let m1 = record m {
        type_sets =
            insert sig (if has_handler type types then types else insert_handler type types)
              m.type_sets;
      } in
      (m1, update_signal m1)

  unfoldable pub remove_type : ℕ → ℕ → SignalManager → SignalManager × SignalCalls
  remove_type sig type m =
      let m1 = record m {
        type_sets = insert sig (erase_handler type (find_or sig [] m.type_sets)) m.type_sets;
      } in
      (m1, update_signal m1)

  unfoldable pub register : ℕ → SignalManager → SignalManager × SignalCalls
  register sig m =
      let m1 = record m {
        signal_set =
            if has_handler sig m.signal_set then m.signal_set else insert_handler sig m.signal_set;
      } in
      (m1, update_signal m1)

  unfoldable pub unregister : ℕ → SignalManager → SignalManager × SignalCalls
  unregister sig m =
      let m1 = record m {
        signal_set =
            if has_handler sig m.signal_set then erase_handler sig m.signal_set else m.signal_set;
      } in
      (m1, update_signal m1)

  -- The constructor of `ISignal`, whose `type_set_` is empty at first: `AddType`, then `Register`.
  unfoldable pub new_signal : ℕ → ℕ → SignalManager → SignalManager × SignalCalls
  new_signal sig type m =
      let m0 = record m { type_sets = insert sig [] m.type_sets } in
      let (m1, out) = add_type sig type m0 in let (m2, more) = register sig m1 in (m2, out ++ more)

-- `SignalManager_::Handle`: the signals whose `OnReceive` is called.
unfoldable pub received_by : List ℕ → SignalManager → List ℕ
received_by [] m = []
received_by (sig ∷ sigs) m =
    let rest = received_by sigs m in if check_type sig interrupt m then sig ∷ rest else rest

-- What a user can do.
pub data Op : Type 0 where
  new_op : ℕ → ℕ → Op
  add_op : ℕ → ℕ → Op
  remove_op : ℕ → ℕ → Op
  delete_op : ℕ → Op

unfoldable pub do_op : ℕ → Op → SignalManager → SignalManager × SignalCalls
do_op sigint (new_op sig type) m = new_signal sigint sig type m
do_op sigint (add_op sig type) m = add_type sigint sig type m
do_op sigint (remove_op sig type) m = remove_type sigint sig type m
do_op sigint (delete_op sig) m = unregister sigint sig m

unfoldable pub do_ops : ℕ → List Op → SignalManager → SignalManager × SignalCalls
do_ops sigint [] m = (m, [])
do_ops sigint (op ∷ ops) m =
    let (m1, out) = do_op sigint op m in let (m2, more) = do_ops sigint ops m1 in (m2, out ++ more)

-- What the calls leave of a signal.
pub disposition : ℕ → SignalCalls → Disposition → Disposition
disposition sig [] d = d
disposition sig ((s, e) ∷ calls) d = disposition sig calls (if s == sig then e else d)

disposition-append :
    (sig : ℕ) (xs ys : SignalCalls) (d : Disposition)
    → disposition sig (xs ++ ys) d ≡ disposition sig ys (disposition sig xs d)
unfolding disposition
disposition-append sig [] ys d = refl
disposition-append sig ((s, e) ∷ xs) ys d = disposition-append sig xs ys (if s == sig then e else d)

update_signal-default :
    (sigint : ℕ) (m : SignalManager) (d : Disposition)
    → sigint ≢ 1
    → disposition sigint (update_signal sigint m) d ≡ sig_dfl
unfolding disposition update_signal signal_calls bool_value
update_signal-default sigint m d other = by_status (status interrupt m.signal_set m)
  where
    by_status :
        (b : Bool)
        → disposition sigint
            ((sigint, sig_dfl) ∷ ((if b then (bool_value b, handle) ∷ [] else []) ++ []))
            d
          ≡ sig_dfl
    by_status true = ground arith
    by_status false = ground arith

do_op-default :
    (sigint : ℕ) (op : Op) (m : SignalManager) (d : Disposition)
    → sigint ≢ 1
    → disposition sigint (do_op sigint op m).1 d ≡ sig_dfl
unfolding do_op new_signal add_type remove_type register unregister
do_op-default sigint (new_op sig type) m d other =
    let m0 : SignalManager = record m { type_sets = insert sig [] m.type_sets } in
    disposition-append sigint (add_type sigint sig type m0).1
      (register sigint sig (add_type sigint sig type m0).0).1 d
    ∙ update_signal-default sigint _ _ other
do_op-default sigint (add_op sig type) m d other = update_signal-default sigint _ d other
do_op-default sigint (remove_op sig type) m d other = update_signal-default sigint _ d other
do_op-default sigint (delete_op sig) m d other = update_signal-default sigint _ d other

-- `UpdateSignal` gives the status of a type to `signal` where its signal belongs. So where SIGINT
-- is not the number 1, it is never handled: whatever signals of whatever types are made, changed
-- and deleted, in any order, the calls leave SIGINT with the system's default.
pub do_ops-default :
    (sigint : ℕ) (ops : List Op) (m : SignalManager)
    → sigint ≢ 1
    → disposition sigint (do_ops sigint ops m).1 sig_dfl ≡ sig_dfl
unfolding disposition do_ops
do_ops-default sigint [] m other = refl
do_ops-default sigint (op ∷ ops) m other =
    disposition-append sigint (do_op sigint op m).1 (do_ops sigint ops (do_op sigint op m).0).1
      sig_dfl
    ∙ ap (disposition sigint (do_ops sigint ops (do_op sigint op m).0).1)
        (do_op-default sigint op m sig_dfl other)
    ∙ do_ops-default sigint ops (do_op sigint op m).0 other
