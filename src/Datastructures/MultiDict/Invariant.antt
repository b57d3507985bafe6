-- ===== src/Datastructures/MultiDict/Invariant.antt =====
-- `_dict` stays in step with `_list` whatever the methods that run.
use starlette.Prelude.{
  ◌≡◌, refl, none, some, List, [], ◌∷◌, map, arith, Eq, ◌==◌, if◌then◌else◌, Bool-cases, inl, inr,
}
use starlette.Prelude.Dict.{
  Dict, is_some, lookup, without, last_value, UniqueKeys, lookup-insert, lookup-without,
  lookup-insert_all, last_value-append, last_value-without, insert-UniqueKeys, without-UniqueKeys,
  insert_all-UniqueKeys, last_value-lookup,
}
use starlette.Datastructures.MultiDict.{
  MultiDict, Source, pop_last, of_items, init, pop, delitem, popitem, poplist, clear, setdefault,
  contains, setlist, setitem, append, outside, update,
}

-- the methods that change an object, with their arguments
pub data Method {ℓ} (K V : Type ℓ) : Type ℓ where
  do_setitem do_append do_setdefault do_pop do_poplist : K → V → Method K V
  do_delitem : K → Method K V
  do_popitem do_clear : Method K V
  do_setlist : K → List V → Method K V
  do_update : Source K V → Dict K V → Method K V

module _ {ℓ} {K V : Type ℓ} ⦃e : Eq K⦄ where
  -- the dictionary has one entry for each key of the list, with the value that stands there last
  pub record IsConsistent (m : MultiDict K V) : Type ℓ where
    pub unique : UniqueKeys m.dict
    pub lookups : (k : K) → lookup k m.dict ≡ last_value k m.list

  of_items-IsConsistent : (items : List (K × V)) → IsConsistent (of_items items)
  unfolding of_items lookup
  of_items-IsConsistent items = record {
    unique = insert_all-UniqueKeys items [] tt;
    lookups = λ k. ground (arith, lookup-insert_all items [] k);
  }

  pub init-IsConsistent :
      (value : Source K V) (kwargs : Dict K V) → IsConsistent (init value kwargs)
  unfolding init
  init-IsConsistent value kwargs = of_items-IsConsistent _

  pub pop-IsConsistent :
      (m : MultiDict K V) (k : K) (v : V) → IsConsistent m → IsConsistent (pop m k v).0
  unfolding pop
  pop-IsConsistent m k v h = record {
    unique = without-UniqueKeys k m.dict h.unique;
    lookups =
        λ j. ground (arith, h.lookups j, lookup-without k j m.dict, last_value-without k j m.list);
  }

  last_value-cons_map :
      (k j : K) (v : V) (vs : List V)
      → last_value j (map (λ w. (k, w)) (v ∷ vs))
        ≡ (if k == j then some (pop_last v vs).1 else none)
  unfolding last_value pop_last
  last_value-cons_map k j v [] = ground arith
  last_value-cons_map k j v (w ∷ vs) = ground (arith, last_value-cons_map k j w vs)

  pub setlist-IsConsistent :
      (m : MultiDict K V) (k : K) (vs : List V) → IsConsistent m → IsConsistent (setlist m k vs)
  unfolding setlist
  setlist-IsConsistent m k [] h = record {
    unique = without-UniqueKeys k m.dict h.unique;
    lookups =
        λ j. ground (arith, h.lookups j, lookup-without k j m.dict, last_value-without k j m.list);
  }
  setlist-IsConsistent m k (v ∷ vs) h = record {
    unique = insert-UniqueKeys k _ m.dict h.unique;
    lookups = λ j. ground (
      arith,
      h.lookups j,
      lookup-insert k j (pop_last v vs).1 m.dict,
      last_value-without k j m.list,
      last_value-append j (without k m.list) (map (λ w. (k, w)) (v ∷ vs)),
      last_value-cons_map k j v vs,
    );
  }

  pub append-IsConsistent :
      (m : MultiDict K V) (k : K) (v : V) → IsConsistent m → IsConsistent (append m k v)
  unfolding append last_value
  append-IsConsistent m k v h = record {
    unique = insert-UniqueKeys k v m.dict h.unique;
    lookups = λ j.
        ground (
          arith,
          h.lookups j,
          lookup-insert k j v m.dict,
          last_value-append j m.list ((k, v) ∷ []),
        );
  }

  pub setdefault-IsConsistent :
      (m : MultiDict K V) (k : K) (v : V) → IsConsistent m → IsConsistent (setdefault m k v).0
  unfolding setdefault
  setdefault-IsConsistent m k v h = elim (Bool-cases (contains m k)) [
    | inl old ↦ rw old h
    | inr new ↦ rw new (unfold append in append-IsConsistent m k v h)
  ]

  pub delitem-IsConsistent :
      (m : MultiDict K V) (k : K) → IsConsistent m → IsConsistent (delitem m k).0
  unfolding delitem
  delitem-IsConsistent m k h = record {
    unique = ground (arith, without-UniqueKeys k m.dict h.unique);
    lookups = λ j. ground (
      arith,
      h.lookups j,
      lookup-without k j m.dict,
      last_value-without k j m.list,
      e.same_iff k j,
    );
  }

  pop_last-found : (x : K × V) (d : Dict K V) → lookup (pop_last x d).1.0 (x ∷ d) ≡ none → ⊥
  unfolding lookup pop_last
  pop_last-found (k, v) [] p = ground (arith, e.same_iff k k)
  pop_last-found (k, v) (y ∷ d) p =
      ground (arith, pop_last-found y d, e.same_iff k (pop_last y d).1.0)

  lookup-pop_last :
      (x : K × V) (d : Dict K V)
      → UniqueKeys (x ∷ d)
      → (j : K)
      → lookup j (pop_last x d).0 ≡ (if (pop_last x d).1.0 == j then none else lookup j (x ∷ d))
  unfolding lookup pop_last
  lookup-pop_last (k, v) [] h j = ground arith
  lookup-pop_last (k, v) (y ∷ d) h j = ground (
    arith,
    lookup-pop_last y d h.1 j,
    pop_last-found y d,
    e.same_iff k j,
    e.same_iff (pop_last y d).1.0 j,
  )

  pop_last-UniqueKeys :
      (x : K × V) (d : Dict K V) → UniqueKeys (x ∷ d) → UniqueKeys (pop_last x d).0
  unfolding pop_last
  pop_last-UniqueKeys x [] h = tt
  pop_last-UniqueKeys (k, v) (y ∷ d) h =
      (ground (arith, lookup-pop_last y d h.1 k), pop_last-UniqueKeys y d h.1)

  popitem_from :
      (l : List (K × V)) (d : Dict K V)
      → IsConsistent (record { dict = d; list = l })
      → IsConsistent (popitem (record { dict = d; list = l })).0
  unfolding popitem
  popitem_from l [] h = h
  popitem_from l (x ∷ d) h = record {
    unique = pop_last-UniqueKeys x d h.unique;
    lookups = λ j. ground (
      arith,
      h.lookups j,
      lookup-pop_last x d h.unique j,
      last_value-without (pop_last x d).1.0 j l,
    );
  }

  pub popitem-IsConsistent : (m : MultiDict K V) → IsConsistent m → IsConsistent (popitem m).0
  popitem-IsConsistent m h = popitem_from m.list m.dict h

  last_value-outside :
      (d : Dict K V) (k : K) (l : List (K × V))
      → last_value k (outside d l) ≡ (if is_some (lookup k d) then none else last_value k l)
  unfolding last_value outside
  last_value-outside d k [] = ground arith
  last_value-outside d k ((j, v) ∷ l) = ground (arith, last_value-outside d k l, e.same_iff j k)

  pub update-IsConsistent :
      (m : MultiDict K V) (value : Source K V) (kwargs : Dict K V)
      → IsConsistent m
      → IsConsistent (update m value kwargs)
  unfolding update
  update-IsConsistent m value kwargs h =
      let g : IsConsistent (init value kwargs) = init-IsConsistent value kwargs in
      record {
        unique = insert_all-UniqueKeys (init value kwargs).dict m.dict h.unique;
        lookups = λ j. ground (
          arith,
          h.lookups j,
          g.lookups j,
          lookup-insert_all (init value kwargs).dict m.dict j,
          last_value-lookup j (init value kwargs).dict g.unique,
          last_value-outside (init value kwargs).dict j m.list,
          last_value-append j (outside (init value kwargs).dict m.list) (init value kwargs).list,
        );
      }

  pub call : Method K V → MultiDict K V → MultiDict K V
  call (do_setitem k v) m = setitem m k v
  call (do_append k v) m = append m k v
  call (do_setdefault k v) m = (setdefault m k v).0
  call (do_pop k v) m = (pop m k v).0
  call (do_poplist k v) m = (poplist m k v).0
  call (do_delitem k) m = (delitem m k).0
  call do_popitem m = (popitem m).0
  call do_clear m = clear m
  call (do_setlist k vs) m = setlist m k vs
  call (do_update value kwargs) m = update m value kwargs

  call-IsConsistent :
      (c : Method K V) (m : MultiDict K V) → IsConsistent m → IsConsistent (call c m)
  unfolding call
  call-IsConsistent (do_setitem k v) m h = unfold setitem in setlist-IsConsistent m k (v ∷ []) h
  call-IsConsistent (do_append k v) m h = append-IsConsistent m k v h
  call-IsConsistent (do_setdefault k v) m h = setdefault-IsConsistent m k v h
  call-IsConsistent (do_pop k v) m h = pop-IsConsistent m k v h
  call-IsConsistent (do_poplist k v) m h = unfold poplist in pop-IsConsistent m k v h
  call-IsConsistent (do_delitem k) m h = delitem-IsConsistent m k h
  call-IsConsistent do_popitem m h = popitem-IsConsistent m h
  call-IsConsistent do_clear m h =
      unfold clear lookup last_value in record { unique = tt; lookups = λ k. refl }
  call-IsConsistent (do_setlist k vs) m h = setlist-IsConsistent m k vs h
  call-IsConsistent (do_update value kwargs) m h = update-IsConsistent m value kwargs h

  pub calls : List (Method K V) → MultiDict K V → MultiDict K V
  unfolding call
  calls [] m = m
  calls (c ∷ cs) m = calls cs (call c m)

  calls-IsConsistent :
      (cs : List (Method K V)) (m : MultiDict K V) → IsConsistent m → IsConsistent (calls cs m)
  unfolding calls
  calls-IsConsistent [] m h = h
  calls-IsConsistent (c ∷ cs) m h = calls-IsConsistent cs (call c m) (call-IsConsistent c m h)

  -- From any constructor call on, whatever methods run and whether they raise: the dictionary has
  -- every key once, and holds under a key the value that the list has last for it.
  pub calls-init :
      (value : Source K V) (kwargs : Dict K V) (cs : List (Method K V))
      → IsConsistent (calls cs (init value kwargs))
  calls-init value kwargs cs = calls-IsConsistent cs _ (init-IsConsistent value kwargs)
