-- ===== src/ByteArray/Transfer/Laws.antt =====
-- Both arrays are lawful sources, and what a transfer moves.
use elegance.Prelude.{
  ℕ, ◌^◌, ◌||◌, Option, none, some, List, [], ◌++◌, ltb, ◌==◌, if◌then◌else◌, length, arith, ◌≡◌,
  ◌≤◌, ◌<◌, take, drop, refl, sym, ap, ◌∙◌, take-append-drop, length-take, append-nil, take_all,
  drop_all, zero, suc, ◌∷◌,
}
use elegance.Prelude.Int.{ℤ, pos}
use elegance.ByteArray.{Source, Lawful}
use elegance.ByteArray.Queue
use elegance.ByteArray.Queue.{QueueByteArray}
use elegance.ByteArray.Static
use elegance.ByteArray.Static.{StaticByteArray, ◌>>=◌, max_msg_length}
use elegance.ByteArray.Static.Safety
use elegance.ByteArray.Transfer.{
  queue_source, static_source, to_uint, to_int, write_pointer_queue, read_into_queue, assign_queue,
}

pub queue_reads :
    (q : QueueByteArray) (n : ℕ)
    → Unit {0}
    → 0 < n
    → n ≤ length q.bytes_queue
    → (t : QueueByteArray) × (queue_source.read_object q n ≡ some (some (take n q.bytes_queue), t))
      × (t.bytes_queue ≡ drop n q.bytes_queue)
      × Unit {0}
unfolding Queue.read_object
queue_reads q n v pos_n fits =
    (record q { bytes_queue = drop n q.bytes_queue }, ground arith, refl, tt)

pub queue_reads_nothing :
    (q : QueueByteArray)
    → Unit {0}
    → q.bytes_queue ≡ []
    → (t : QueueByteArray) × (obj : Option (List ℕ)) × (queue_source.read_object q 0
        ≡ some (obj, t))
      × (t.bytes_queue ≡ [])
      × Unit {0}
unfolding Queue.read_object
queue_reads_nothing q v e = (record q { bytes_queue = [] }, some [], ground (arith, e), refl, tt)

instance abbrev pub queue_lawful : Lawful QueueByteArray
queue_lawful = record {
  IsValid = λ q. Unit {0};
  contents = λ q. q.bytes_queue;
  available = λ q. refl;
  reads = queue_reads;
  reads_nothing = queue_reads_nothing;
}

pub static_reads :
    (s : StaticByteArray) (n : ℕ)
    → Safety.IsValid s
    → 0 < n
    → n ≤ length (Safety.contents s)
    → (t : StaticByteArray) × (Static.read_object s n ≡ some (some (take n (Safety.contents s)), t))
      × (Safety.contents t ≡ drop n (Safety.contents s))
      × Safety.IsValid t
unfolding Static.read_object
static_reads s n v pos_n fits =
    let held = Safety.contents s in
    let (t, p, c) =
      Safety.get_bytes-Consumes s (take n held) (drop n held) v (sym (take-append-drop n held)) in
    let size : length (take n held) ≡ n = omega (arith, length-take n held) in
    let p' : Static.get_bytes n s ≡ some (take n held, t) =
      ap (λ k. Static.get_bytes k s) (sym size) ∙ p in
    (t, ground (arith, p', Safety.length-contents s), c.left, c.valid)

pub static_reads_nothing :
    (s : StaticByteArray)
    → Safety.IsValid s
    → Safety.contents s ≡ []
    → (t : StaticByteArray) × (obj : Option (List ℕ)) × (Static.read_object s 0 ≡ some (obj, t))
      × (Safety.contents t ≡ [])
      × Safety.IsValid t
unfolding Static.read_object
static_reads_nothing s v e = (s, none, ground arith, e, v)

instance abbrev pub static_lawful : Lawful StaticByteArray
static_lawful = record {
  IsValid = Safety.IsValid;
  contents = Safety.contents;
  available = λ s. sym (Safety.length-contents s);
  reads = static_reads;
  reads_nothing = static_reads_nothing;
}

-- The number of bytes that a request for `bytes_len` moves into a queue, of `held` bytes.
abbrev pub moved : ℤ → ℕ → ℕ
moved bytes_len held =
    if to_uint bytes_len == 0 || ltb held (to_uint bytes_len) then held else to_uint bytes_len

pub take-take : (n : ℕ) (xs : List ℕ) → n ≤ length xs → take n (take n xs) ≡ take n xs
take-take n xs h =
    ap (λ k. take k (take n xs)) (omega (arith, length-take n xs)) ∙ take_all (take n xs)

moved-le : (z : ℤ) (held : ℕ) → moved z held ≤ held
moved-le z held = ground arith

moved-zero : (z : ℤ) (held : ℕ) → moved z held ≡ 0 → held ≡ 0
moved-zero z held h = ground arith

length-zero : (xs : List ℕ) → length xs ≡ 0 → xs ≡ []
length-zero [] h = refl
length-zero (x ∷ xs) h = absurd (omega arith)

module _ {S : Type 0} ⦃src : Source S⦄ ⦃law : Lawful S⦄ where
  abbrev pull : ℕ → QueueByteArray → S → Option (QueueByteArray × S)
  pull n q other = do
    (obj, rest) ← src.read_object other n
    r ← write_pointer_queue obj (to_int n) q
    some (r, rest)

  pull-moves :
      (n : ℕ) (q : QueueByteArray) (other : S)
      → law.IsValid other
      → n ≤ length (law.contents other)
      → n < 2 ^ 31
      → (n ≡ 0 → length (law.contents other) ≡ 0)
      → (rest : S) × (pull n q other
          ≡ some (record q { bytes_queue = q.bytes_queue ++ take n (law.contents other) }, rest))
        × (law.contents rest ≡ drop n (law.contents other))
        × law.IsValid rest
  unfolding write_pointer_queue Queue.write_object
  pull-moves zero q other v fits small none_left =
      let e = length-zero (law.contents other) (none_left refl) in
      let (rest, obj, p, c, w) = law.reads_nothing other v e in
      (rest, rw p (nothing obj rest), c ∙ sym e, w)
    where
      nothing :
          (obj : Option (List ℕ)) (rest : S)
          → ◌>>=◌ {B = QueueByteArray × S} (write_pointer_queue obj (pos 0) q) (λ r. some (r, rest))
            ≡ some (record q { bytes_queue = q.bytes_queue ++ [] }, rest)
      nothing none rest = rw append-nil
      nothing (some obj) rest = refl
  pull-moves (suc n) q other v fits small none_left =
      let (rest, p, c, w) = law.reads other (suc n) v (omega arith) fits in
      let short = take-take (suc n) (law.contents other) fits in
      let fit : to_int (suc n) ≡ pos (suc n) = ground (arith, small) in
      (rest, rw (p, fit, short), c, w)

  -- `QueueByteArray::ReadFromByteArray` from a valid array of fewer than 2 ^ 31 bytes never reads
  -- through a null pointer. It moves the first `bytes_len` bytes to the end of the queue, or all of
  -- them if `bytes_len` is 0 or is, read as unsigned, more than there are; the others stay.
  pub read_into_queue-moves :
      (bytes_len : ℤ) (q : QueueByteArray) (other : S)
      → law.IsValid other
      → length (law.contents other) < 2 ^ 31
      → let n = moved bytes_len (length (law.contents other)) in
        (rest : S) × (read_into_queue bytes_len q other
          ≡ some (record q { bytes_queue = q.bytes_queue ++ take n (law.contents other) }, rest))
        × (law.contents rest ≡ drop n (law.contents other))
        × law.IsValid rest
  unfolding read_into_queue
  read_into_queue-moves bytes_len q other v small =
      let held = length (law.contents other) in
      let n = moved bytes_len held in
      let (rest, p, c, w) =
        pull-moves n q other v (moved-le bytes_len held) (omega (arith, moved-le bytes_len held))
          (moved-zero bytes_len held) in
      (
        rest,
        ap
              (λ k.
                pull
                  (if to_uint bytes_len == 0 || ltb k (to_uint bytes_len)
                    then k
                    else to_uint bytes_len)
                  q other)
              (law.available other)
            ∙ p,
        c,
        w,
      )

-- `operator=` between two distinct queues, from one of fewer than 2 ^ 31 bytes, leaves the left one
-- with exactly the bytes of the right one, in the byte order that it had, and the right one with
-- none.
pub assign_queue-moves :
    (q other : QueueByteArray)
    → length other.bytes_queue < 2 ^ 31
    → (rest : QueueByteArray) × (assign_queue q other
        ≡ some (record q { bytes_queue = other.bytes_queue }, rest))
      × (rest.bytes_queue ≡ [])
unfolding assign_queue Queue.clear
assign_queue-moves q other small =
    let held = length other.bytes_queue in
    let (rest, p, c, w) = read_into_queue-moves (to_int held) (Queue.clear q) other tt small in
    let all : moved (to_int held) held ≡ held = ground (arith, small) in
    let p' = rw all at p in
    let c' = rw all at c in
    (
      rest,
      p' ∙ ap (λ bs. some (record q { bytes_queue = bs }, rest)) (take_all other.bytes_queue),
      c' ∙ drop_all other.bytes_queue,
    )
