-- ===== src/Lru/Bounded.antt =====
-- The eviction of a bounded cache, and what a store leaves.
use circle_wallet_service.Prelude.{
  ℕ, zero, suc, ◌+◌, ◌≤◌, ◌<◌, ◌≡◌, refl, sym, false, none, some, ◌∷◌, String, ◌==◌, eq_iff,
  eq_refl, arith, ltb, length, take, if◌then◌else◌, Bool-cases, Option-cases, inl, inr, is_set,
  ltb→lt, ◌∙◌, length-take-le,
}
use circle_wallet_service.GoMap.{lookup, insert, delete, lookup-insert, lookup-delete}
use circle_wallet_service.Lru.{
  Lru, remove, move_to_front, back, without_back, evict, promote, find, store,
}
use circle_wallet_service.Lru.Recency.{
  contains, IsOnce, contains-remove, remove-IsOnce, remove_absent, length-remove,
  contains-without_back, without_back-IsOnce, length-without_back, back-none, take-without_back,
  take_all, contains-take, take-IsOnce, first_taken,
}

module _ {ℓ} {V : Type ℓ} where
  -- The map and the list hold the same keys.
  abbrev pub Agrees : Lru V → Type 0
  Agrees s = (j : String) → is_set (lookup j s.entries) ≡ contains j s.order

  -- The well-formed caches: the list holds each key of the map once, and no more of them than the cap.
  pub record IsWell (s : Lru V) : Type 0 where
    pub once : IsOnce s.order
    pub agrees : Agrees s
    pub bounded : length s.order ≤ s.max_entries

  -- A cache cut down to the keys that were used last.
  pub record Cut (n : ℕ) (s t : Lru V) : Type ℓ where
    pub recent : t.order ≡ take n s.order
    pub kept :
        (j : String)
        → lookup j t.entries ≡ (if contains j t.order then lookup j s.entries else none)
    pub cap : t.max_entries ≡ s.max_entries

  absent :
      (s : Lru V) (j : String) → Agrees s → contains j s.order ≡ false → lookup j s.entries ≡ none
  absent s j a h = elim (Option-cases (lookup j s.entries)) [
    | inl e ↦ e
    | inr (v, e) ↦ absurd (ground (arith, a j, e, h))
  ]

  uncut : (n : ℕ) (s : Lru V) → Agrees s → length s.order ≤ n → Cut n s s
  uncut n s a short = record {
    recent = sym (take_all n s.order short);
    kept = λ j. elim (Bool-cases (contains j s.order)) [
      | inl e ↦ rw e refl
      | inr e ↦ rw e (absent s j a e)
    ];
    cap = refl;
  }

  -- The cache without its last key.
  abbrev cut_back : String → Lru V → Lru V
  cut_back victim s = record s { order = without_back s.order; entries = delete victim s.entries }

  cut_back-Agrees :
      (victim : String) (s : Lru V)
      → IsOnce s.order
      → Agrees s
      → back s.order ≡ some victim
      → Agrees (cut_back victim s)
  cut_back-Agrees victim s o a b j =
      rw (lookup-delete victim j s.entries, contains-without_back j s.order o b)
        (elim (Bool-cases (victim == j)) [
          | inl e ↦ rw e (ground arith)
          | inr e ↦ rw e (ground (arith, a j))
        ])

  evict_again :
      (victim : String) (s t : Lru V)
      → IsOnce s.order
      → back s.order ≡ some victim
      → s.max_entries < length s.order
      → Cut s.max_entries (cut_back victim s) t
      → Cut s.max_entries s t
  evict_again victim s t o b over c = record {
    recent = c.recent ∙ take-without_back s.max_entries s.order over;
    kept = λ j. elim (Bool-cases (contains j t.order)) [
      | inl e ↦ ground (
        arith,
        e,
        c.kept j,
        lookup-delete victim j s.entries,
        contains-without_back j s.order o b,
        contains-take j s.max_entries (without_back s.order) (rw (sym c.recent) e),
      )
      | inr e ↦ ground (arith, e, c.kept j)
    ];
    cap = c.cap;
  }

  evict-Cut :
      (fuel : ℕ) (s : Lru V)
      → IsOnce s.order
      → Agrees s
      → length s.order ≤ fuel
      → Cut s.max_entries s (evict fuel s)
  unfolding evict
  evict-Cut zero s o a h = uncut s.max_entries s a (omega (arith, h))
  evict-Cut (suc fuel) s o a h = elim (Option-cases (back s.order)) [
    | inl e ↦ rw (evict, e) (uncut s.max_entries s a (ground (arith, back-none s.order e)))
    | inr (victim, e) ↦ elim (Bool-cases (ltb s.max_entries (length s.order))) [
      | inr fits ↦ rw (evict, e, fits) (uncut s.max_entries s a (ground (arith, fits)))
      | inl over ↦
          rw (evict, e, over)
            (evict_again victim s (evict fuel (cut_back victim s)) o e (ltb→lt _ _ over) (
              evict-Cut fuel (cut_back victim s) (without_back-IsOnce s.order o e)
                (cut_back-Agrees victim s o a e) (omega (arith, h, length-without_back s.order e))))
    ]
  ]

  -- What a cut leaves is well-formed.
  evict-IsWell : (s t : Lru V) → IsOnce s.order → Agrees s → Cut s.max_entries s t → IsWell t
  evict-IsWell s t o a c = record {
    once = rw c.recent (take-IsOnce s.max_entries s.order o);
    agrees = λ j. elim (Bool-cases (contains j t.order)) [
      | inl e ↦
          ground
            (arith, e, c.kept j, a j, contains-take j s.max_entries s.order (rw (sym c.recent) e))
      | inr e ↦ ground (arith, e, c.kept j)
    ];
    bounded = rw (c.recent, c.cap) (length-take-le s.max_entries s.order);
  }

  -- A key and its value, put first.
  abbrev put_first : String → V → Lru V → Lru V
  put_first k v s = record s { entries = insert k v s.entries; order = move_to_front k s.order }

  put_first-IsOnce :
      (k : String) (v : V) (s : Lru V) → IsOnce s.order → IsOnce (put_first k v s).order
  put_first-IsOnce k v s o =
      (ground (arith, contains-remove k k s.order, eq_refl k), remove-IsOnce k s.order o)

  put_first-Agrees : (k : String) (v : V) (s : Lru V) → Agrees s → Agrees (put_first k v s)
  unfolding contains
  put_first-Agrees k v s a j =
      ground (arith, lookup-insert k j v s.entries, contains-remove j k s.order, a j)

  new_first-Agrees :
      (k : String) (v : V) (s : Lru V)
      → Agrees s
      → Agrees (record s { entries = insert k v s.entries; order = k ∷ s.order })
  unfolding contains
  new_first-Agrees k v s a j = ground (arith, lookup-insert k j v s.entries, a j)

  store-Cut :
      (k : String) (v : V) (s : Lru V)
      → IsWell s
      → Cut s.max_entries (put_first k v s) (store k v s)
  unfolding store
  store-Cut k v s w = elim (Option-cases (lookup k s.entries)) [
    | inl e ↦
        let new : contains k s.order ≡ false = ground (arith, w.agrees k, e) in
        rw (store, e)
          (rw (remove_absent k s.order new) (
            evict-Cut (length s.order + 1)
              (record s { entries = insert k v s.entries; order = k ∷ s.order }) (new, w.once)
              (new_first-Agrees k v s w.agrees) (omega arith)))
    | inr (old, e) ↦
        rw (store, e)
          (uncut s.max_entries (put_first k v s) (put_first-Agrees k v s w.agrees)
            (omega (arith, w.bounded, length-remove k s.order (ground (arith, w.agrees k, e)))))
  ]

  -- A store leaves the key with its value in front of the others, and of all keys those that were used
  -- last, up to the cap; the cache stays well-formed.
  pub store_recent :
      (k : String) (v : V) (s : Lru V)
      → IsWell s
      → IsWell (store k v s)
        × (((store k v s).order ≡ take s.max_entries (k ∷ remove k s.order))
            × ((j : String)
                → lookup j (store k v s).entries ≡ (
                    if contains j (take s.max_entries (k ∷ remove k s.order))
                    then (if k == j then some v else lookup j s.entries)
                    else none)))
  store_recent k v s w =
      let c = store-Cut k v s w in
      (
        evict-IsWell (put_first k v s) (store k v s) (put_first-IsOnce k v s w.once)
            (put_first-Agrees k v s w.agrees) c,
        (c.recent, λ j. ground (arith, c.kept j, c.recent, lookup-insert k j v s.entries)),
      )

  put_first-IsWell :
      (k : String) (v : V) (s : Lru V)
      → IsWell s
      → lookup k s.entries ≡ some v
      → IsWell (promote k s)
  unfolding promote contains
  put_first-IsWell k v s w e = record {
    once = put_first-IsOnce k v s w.once;
    agrees =
        λ j. ground (arith, w.agrees j, w.agrees k, contains-remove j k s.order, e, eq_iff k j);
    bounded = omega (arith, w.bounded, length-remove k s.order (ground (arith, w.agrees k, e)));
  }

  -- A lookup answers the entry and keeps the cache well-formed.
  pub find-IsWell :
      (k : String) (s : Lru V)
      → IsWell s
      → ((find k s).0 ≡ lookup k s.entries)
        × (((find k s).1.entries ≡ s.entries)
            × (((find k s).1.max_entries ≡ s.max_entries) × IsWell (find k s).1))
  unfolding find promote
  find-IsWell k s w = elim (Option-cases (lookup k s.entries)) [
    | inl e ↦ rw (find, e) (refl, (refl, (refl, w)))
    | inr (v, e) ↦ rw (find, e) (refl, (refl, (refl, put_first-IsWell k v s w e)))
  ]

  -- The key of a store is there.
  pub store-lookup :
      (k : String) (v : V) (s : Lru V)
      → IsWell s
      → 1 ≤ s.max_entries
      → lookup k (store k v s).entries ≡ some v
  store-lookup k v s w room = ground (
    arith,
    (store_recent k v s w).1.1 k,
    first_taken k s.max_entries (remove k s.order) room,
    eq_refl k,
  )
