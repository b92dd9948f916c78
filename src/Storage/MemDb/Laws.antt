-- ===== src/Storage/MemDb/Laws.antt =====
-- The database in memory meets the laws of LMDB's maps and cursors.
use agentx_subagent.Prelude.{
  ◌≡◌, refl, true, none, some, List, [], ◌∷◌, Bytes, same, same→eq, same_refl, All, if◌then◌else◌,
  arith, Bool-cases, inl, inr,
}
use agentx_subagent.Storage.Lmdb.{
  LmdbLaws, NotFoundLaws, IsMdbKey, success, notfound, CursorOp, first, next, set_range,
}
use agentx_subagent.Storage.Iter.Keys.{CursorLaws, IsAscending, bytes_lt, bytes_lt_trans, target}
use agentx_subagent.Storage.MemDb.{
  Entries, MemCursor, find, without, insert_key, sorted_keys, mem_lmdb,
}

find-without :
    (k j : Bytes) (es : Entries) → find j (without k es) ≡ (if same k j then none else find j es)
unfolding find without
find-without k j [] = ground arith
find-without k j ((i, v) ∷ es) =
    ground
      (arith, find-without k j es, same→eq i k, same→eq i j, same→eq k j, same_refl k, same_refl j)

pub del_found :
    (t : Entries) (k j : Bytes)
    → (mem_lmdb.del t k).0 ≡ success
    → find j (mem_lmdb.del t k).1 ≡ (if same k j then none else find j t)
unfolding mem_lmdb
del_found t k j h = ground (arith, find-without k j t)

pub get_present :
    (t : Entries) (k v : Bytes) → IsMdbKey k → find k t ≡ some v → mem_lmdb.get t k ≡ (success, v)
unfolding mem_lmdb
get_present t k v valid h = ground (arith, h)

pub get_absent :
    (t : Entries) (k : Bytes) → IsMdbKey k → find k t ≡ none → (mem_lmdb.get t k).0 ≡ notfound
unfolding mem_lmdb
get_absent t k valid h = ground (arith, h)

pub put_found :
    (t : Entries) (k v j : Bytes)
    → (mem_lmdb.put t k v).0 ≡ success
    → find j (mem_lmdb.put t k v).1 ≡ (if same k j then some v else find j t)
unfolding mem_lmdb find
put_found t k v j h = ground arith

pub del_absent :
    (t : Entries) (k : Bytes) → IsMdbKey k → find k t ≡ none → (mem_lmdb.del t k).0 ≡ notfound
unfolding mem_lmdb
del_absent t k valid h = ground (arith, h)

unfoldable pub mem_laws : LmdbLaws mem_lmdb
unfolding mem_lmdb
mem_laws = record {
  env_view = λ e k. find k e;
  txn_view = λ t k. find k t;
  begin_snapshot = λ ro e k h. refl;
  begin_keeps = λ ro e k. refl;
  get_found = get_present;
  get_missing = get_absent;
  put_stores = put_found;
  del_removes = del_found;
  del_missing = del_absent;
  writing = λ t e. true;
  begin_writing = λ e h. refl;
  put_writing = λ t k v e. refl;
  del_writing = λ t k e. refl;
  commit_publishes = λ t e k w h. refl;
  commit_fails = λ t e k h. absurd (h refl);
  abort_keeps = λ t e k. refl;
}

pub mem_view : (e : Entries) (k : Bytes) → mem_laws.env_view e k ≡ find k e
unfolding mem_laws
mem_view e k = refl

pub mem_notfound : NotFoundLaws mem_lmdb mem_laws
unfolding mem_lmdb mem_laws
mem_notfound = record {
  begin_other = λ ro e h. cc;
  commit_other = λ t e h. cc;
  del_notfound = λ t k h. ground (arith, h);
}

insert-All :
    (j x : Bytes) (ks : List Bytes)
    → bytes_lt j x ≡ true
    → All (λ k. bytes_lt j k ≡ true) ks
    → All (λ k. bytes_lt j k ≡ true) (insert_key x ks)
unfolding insert_key
insert-All j x [] h hs = (h, tt)
insert-All j x (k ∷ ks) h hs =
    let rest = insert-All j x ks h hs.1 in
    elim (Bool-cases (bytes_lt x k)) [
      | inl below ↦ rw below (h, hs)
      | inr above ↦ rw above (elim (Bool-cases (bytes_lt k x)) [
        | inl behind ↦ rw behind (hs.0, rest)
        | inr equal ↦ rw equal hs
      ])
    ]

after-All :
    (x k : Bytes) (ks : List Bytes)
    → bytes_lt x k ≡ true
    → All (λ j. bytes_lt k j ≡ true) ks
    → All (λ j. bytes_lt x j ≡ true) ks
after-All x k [] h hs = tt
after-All x k (j ∷ ks) h hs = (bytes_lt_trans x k j h hs.0, after-All x k ks h hs.1)

insert-IsAscending : (x : Bytes) (ks : List Bytes) → IsAscending ks → IsAscending (insert_key x ks)
unfolding insert_key
insert-IsAscending x [] h = (tt, tt)
insert-IsAscending x (k ∷ ks) h =
    let rest = insert-IsAscending x ks h.1 in
    elim (Bool-cases (bytes_lt x k)) [
      | inl below ↦ rw below ((below, after-All x k ks below h.0), h)
      | inr above ↦ rw above (elim (Bool-cases (bytes_lt k x)) [
        | inl behind ↦ rw behind (insert-All k x ks behind h.0, rest)
        | inr equal ↦ rw equal h
      ])
    ]

pub sorted-IsAscending : (t : Entries) → IsAscending (sorted_keys t)
unfolding sorted_keys
sorted-IsAscending [] = tt
sorted-IsAscending ((k, v) ∷ es) = insert-IsAscending k (sorted_keys es) (sorted-IsAscending es)

unfoldable pub mem_cursors : CursorLaws mem_lmdb
unfolding mem_lmdb
mem_cursors = record {
  keys = sorted_keys;
  all = λ c. c.all;
  rest = λ c. c.rest;
  ascending = sorted-IsAscending;
  opened = λ t h. refl;
  found = move_found;
  ended = move_ended;
}
  where
    move_found :
        (op : CursorOp) (c : MemCursor) (k : Bytes) (ks : List Bytes)
        → target (λ c. c.all) (λ c. c.rest) op c ≡ k ∷ ks
        → ((mem_lmdb.cursor_get op c).0 ≡ success)
          × ((mem_lmdb.cursor_get op c).1 ≡ k)
          × ((mem_lmdb.cursor_get op c).2.rest ≡ ks)
    move_found first c k ks h = rw h (refl, refl, refl)
    move_found next c k ks h = rw h (refl, refl, refl)
    move_found (set_range p) c k ks h = rw h (refl, refl, refl)

    move_ended :
        (op : CursorOp) (c : MemCursor)
        → target (λ c. c.all) (λ c. c.rest) op c ≡ []
        → (mem_lmdb.cursor_get op c).0 ≡ notfound
    move_ended first c h = rw h
    move_ended next c h = rw h
    move_ended (set_range p) c h = rw h
