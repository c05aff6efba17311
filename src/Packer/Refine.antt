-- ===== src/Packer/Refine.antt =====
-- `UnPack` reads a piece of bytes as the byte-wise reading does, whatever the pieces are.
use elegance.Prelude.{
  ℕ, zero, suc, ◌+◌, ◌≤◌, ◌<◌, ◌≡◌, refl, ap, sym, subst, ◌∙◌, ◌⊎◌, inl, inr, true, false, Option,
  none, some, List, [], ◌++◌, arith, length, drop, replicate, ltb, leb, ◌==◌, length-drop,
  append-nil, drop_all, subst₂, Bool-cases,
}
use elegance.Prelude.Map.{find, insert, find-insert, nat_key}
use elegance.Prelude.Bytes.{from_little}
use elegance.Packer.{
  CacheBuffer, Package, Packer, Progress, read_header, read_body, unpack_step, Run, done, fault,
  after, unpack,
}
use elegance.Packer.Stream.{Pending, head, body, Received, with_packages, receive_all}
use elegance.Packer.Cache.{cache, BodyFits, Holds, create_cache-zeros}
use elegance.Packer.Step.{work, Advances, Matches}
use elegance.Packer.Header.{header_step}
use elegance.Packer.Body.{body_step}

-- A call of `UnPack` on a connection's cache, whatever it holds.
unpack_step-Matches :
    (o : Option CacheBuffer) (p : Pending) (bytes : List ℕ)
    → Holds o p
    → 0 < length bytes
    → Matches bytes p (unpack_step bytes o)
unfolding unpack_step
unpack_step-Matches o (head hs) bytes (inl (e, none_read)) h =
    subst (λ q. Matches bytes (head q) (unpack_step bytes o)) (sym none_read)
      (subst (Matches bytes (head [])) (sym opened)
        (header_step [] (replicate 4 0) bytes (omega arith) (omega arith) h))
  where
    opened : unpack_step bytes o ≡ read_header bytes (cache (replicate 4 0) 0)
    opened = rw (e, create_cache-zeros)
unpack_step-Matches o (head hs) bytes (inr (tail, e, short, room)) h =
    subst (Matches bytes (head hs)) (sym opened) (header_step hs tail bytes short room h)
  where
    opened : unpack_step bytes o ≡ read_header bytes (cache (hs ++ tail) (length hs))
    opened = rw e (let test : leb 4 (length hs) ≡ false = ground (arith, short) in rw test)
unpack_step-Matches o (body w rs) bytes (hd, tail, e, size, is_word, fits) h =
    subst (λ v. Matches bytes (body v rs) (unpack_step bytes o)) is_word
      (subst (Matches bytes (body (from_little hd) rs)) (sym opened)
        (body_step hd rs tail bytes size (subst (λ v. BodyFits v rs tail) (sym is_word) fits) h))
  where
    opened : unpack_step bytes o ≡ read_body bytes (cache (hd ++ (rs ++ tail)) (4 + length rs))
    opened = rw e (let test : leb 4 (4 + length rs) ≡ true = ground arith in rw test)

-- Both fail, or both go on in step: the packages are the same, the connection's cache holds what
-- the reading has, and no other connection's cache has changed.
pub record Goes (net_id : ℕ) (m : Packer) (run : Run (Packer × List Package)) (r : Received)
    : Type 0 where
  pub state : Packer
  pub packages : List Package
  pub pending : Pending
  pub ran : run ≡ done (state, packages)
  pub reads : r ≡ some (pending, packages)
  pub holds : Holds (find net_id state) pending
  pub others : (j : ℕ) → (net_id == j) ≡ false → find j state ≡ find j m

abbrev pub InStep : ℕ → Packer → Run (Packer × List Package) → Received → Type 0
InStep net_id m run r = ((run ≡ fault) × (r ≡ none)) ⊎ Goes net_id m run r

work-positive : (p : Pending) (bytes : List ℕ) → 0 < length bytes → 0 < work p bytes
work-positive (head hs) bytes h = omega arith
work-positive (body zero rs) bytes h = omega arith
work-positive (body (suc w) rs) bytes h = omega arith

module _ (net_id : ℕ) (c : CacheBuffer) (m : Packer) where
  find-insert_self : find net_id (insert net_id c m) ≡ some c
  find-insert_self =
      find-insert net_id net_id c m
      ∙ (let self : (net_id == net_id) ≡ true = ground arith in rw self)

  find-insert_other : (j : ℕ) → (net_id == j) ≡ false → find j (insert net_id c m) ≡ find j m
  find-insert_other j h = find-insert j net_id c m ∙ rw h

  -- The rest of the call behind one that has used some of the bytes.
  after-InStep :
      (out : List Package) (run : Run (Packer × List Package)) (r : Received)
      → InStep net_id (insert net_id c m) run r
      → InStep net_id m (after out run) (with_packages out r)
  after-InStep out run r (inl (faults, fails)) = inl (rw faults, rw fails)
  after-InStep out run r (inr g) = inr (record {
    state = g.state;
    packages = out ++ g.packages;
    pending = g.pending;
    ran = rw g.ran;
    reads = rw g.reads;
    holds = g.holds;
    others = λ j h. g.others j h ∙ find-insert_other j h;
  })

  -- A call that has used all bytes.
  last-InStep :
      (out : List Package) (pending : Pending)
      → Holds (some c) pending
      → InStep net_id m (done (insert net_id c m, out)) (some (pending, out))
  last-InStep out pending h = inr (record {
    state = insert net_id c m;
    packages = out;
    pending = pending;
    ran = refl;
    reads = refl;
    holds = subst (λ o. Holds o pending) (sym find-insert_self) h;
    others = find-insert_other;
  })

module _ (fuel net_id : ℕ) (bytes : List ℕ) (m : Packer) where
  unpack-fault : unpack_step bytes (find net_id m) ≡ none → unpack (suc fuel) net_id bytes m ≡ fault
  unfolding unpack
  unpack-fault e = rw (e, unpack)

  unpack-more :
      (c : CacheBuffer) (n : ℕ) (out : List Package)
      → unpack_step bytes (find net_id m) ≡ some (c, n, out)
      → ltb n (length bytes) ≡ true
      → unpack (suc fuel) net_id bytes m
        ≡ after out (unpack fuel net_id (drop n bytes) (insert net_id c m))
  unfolding unpack
  unpack-more c n out e h = rw (e, unpack) (rw h)

  unpack-last :
      (c : CacheBuffer) (n : ℕ) (out : List Package)
      → unpack_step bytes (find net_id m) ≡ some (c, n, out)
      → ltb n (length bytes) ≡ false
      → unpack (suc fuel) net_id bytes m ≡ done (insert net_id c m, out)
  unfolding unpack
  unpack-last c n out e h = rw (e, unpack) (rw h)

drop_used :
    (n : ℕ) (bytes : List ℕ) → n ≤ length bytes → ltb n (length bytes) ≡ false → drop n bytes ≡ []
drop_used n bytes h k =
    let all : n ≡ length bytes = ground (arith, k) in ap (λ i. drop i bytes) all ∙ drop_all bytes

used_all :
    (bytes : List ℕ) (p : Pending) (m : Option Progress) (a : Advances bytes p m)
    → ltb a.used (length bytes) ≡ false
    → receive_all p bytes ≡ some (a.pending, a.packages)
unfolding receive_all
used_all bytes p m a no_more =
    a.agrees
    ∙ ap (λ bs. with_packages a.packages (receive_all a.pending bs))
        (drop_used a.used bytes a.within no_more)
    ∙ rw (append-nil a.packages)

-- From a cache that holds what has come, a call of `UnPack` with at least one byte and enough fuel
-- either meets undefined behaviour exactly where the byte-wise reading fails, or hands on exactly
-- the packages of that reading, and leaves a cache that holds what the reading has. The caches of
-- other connections do not change.
pub unpack-InStep :
    (fuel net_id : ℕ) (bytes : List ℕ) (m : Packer) (p : Pending)
    → Holds (find net_id m) p
    → 0 < length bytes
    → work p bytes ≤ fuel
    → InStep net_id m (unpack fuel net_id bytes m) (receive_all p bytes)
unpack-InStep zero net_id bytes m p h some_bytes enough =
    absurd (omega (arith, work-positive p bytes some_bytes))
unpack-InStep (suc fuel) net_id bytes m p h some_bytes enough =
    elim (unpack_step-Matches (find net_id m) p bytes h some_bytes) [
      | inl (faults, fails) ↦ inl (unpack-fault fuel net_id bytes m faults, fails)
      | inr a ↦ (elim (Bool-cases (ltb a.used (length bytes))) [
        | inl more ↦
            subst₂ (InStep net_id m)
              (sym (unpack-more fuel net_id bytes m a.result a.used a.packages a.steps more))
              (sym a.agrees)
              (after-InStep net_id a.result m a.packages _ _ (
                unpack-InStep fuel net_id (drop a.used bytes) (insert net_id a.result m) a.pending
                  (subst (λ o. Holds o a.pending) (sym (find-insert_self net_id a.result m))
                    a.holds)
                  (ground (arith, length-drop a.used bytes, more)) (omega (arith, a.less, enough))))
        | inr no_more ↦
            subst₂ (InStep net_id m)
              (sym (unpack-last fuel net_id bytes m a.result a.used a.packages a.steps no_more))
              (sym (used_all bytes p _ a no_more))
              (last-InStep net_id a.result m a.packages a.pending a.holds)
      ])
    ]
