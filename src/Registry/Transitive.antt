-- ===== src/Registry/Transitive.antt =====
-- The loop of GetTransitiveDependencies ends: each entry of its queue is either a direct dependency
-- or the first visit of a stored tag.
use pbuf_registry.Prelude.{
  ℕ, suc, ◌+◌, ◌≤◌, Bool, true, false, not, ◌&&◌, Option, none, some, ◌≡◌, ap, List, [], ◌∷◌, ◌++◌,
  length, length-append, ==_iff, string_eq, nat_eq, any, all, select, any-append, Bool-cases, inl,
  inr, arith,
}
use pbuf_registry.Database.Tables.{Dependency, Db}
use pbuf_registry.Registry.Dependencies.{
  join_module, DepKey, dep_key, same_key, visited_has, Search, offer, offer_all,
}

length-select {ℓ} :
    {A : Type ℓ} (p q : A → Bool) (xs : List A)
    → ((a : A) → q a ≡ true → p a ≡ true)
    → length (select q xs) ≤ length (select p xs)
length-select p q [] k = omega arith
length-select p q (x ∷ xs) k = ground (arith, k x, length-select p q xs k)

length-select_less {ℓ} :
    {A : Type ℓ} (p q : A → Bool) (xs : List A)
    → ((a : A) → q a ≡ true → p a ≡ true)
    → any (λ a. p a && not (q a)) xs ≡ true
    → suc (length (select q xs)) ≤ length (select p xs)
length-select_less p q [] k h = absurd (ground arith)
length-select_less p q (x ∷ xs) k h = elim (Bool-cases (p x && not (q x))) [
  | inl e ↦ ground (arith, length-select p q xs k)
  | inr e ↦ ground (arith, k x, length-select_less p q xs k)
]

any-true {ℓ} :
    {A : Type ℓ} (p q : A → Bool) (xs : List A)
    → ((a : A) → p a ≡ true → q a ≡ true)
    → any p xs ≡ true
    → any q xs ≡ true
any-true p q [] k h = h
any-true p q (x ∷ xs) k h = ground (arith, k x, any-true p q xs k)

same_key_iff : (k l : DepKey) → same_key k l ≡ true → k ≡ l
same_key_iff k l h = ground (arith, ==_iff k.name l.name, ==_iff k.tag l.tag)

abbrev pub is_dep : Dependency → Option Dependency → Bool
is_dep e none = false
is_dep e (some f) = same_key (dep_key e) (dep_key f)

abbrev unseen : List DepKey → Option Dependency → Bool
unseen visited none = false
unseen visited (some f) = not (visited_has visited f)

module _ (d : Db) where
  -- A stored tag is this dependency.
  abbrev pub known : Dependency → Bool
  known e = any (λ t. is_dep e (join_module d t)) d.tags

  -- How many stored tags have not been visited
  abbrev pub left : List DepKey → ℕ
  left visited = length (select (λ t. unseen visited (join_module d t)) d.tags)

  unseen-add :
      (visited : List DepKey) (e : Dependency) (o : Option Dependency)
      → unseen (visited ++ dep_key e ∷ []) o ≡ true
      → unseen visited o ≡ true
  unseen-add visited e none h = h
  unseen-add visited e (some f) h =
      ground (arith, any-append (same_key (dep_key f)) visited (dep_key e ∷ []))

  newly_seen :
      (visited : List DepKey) (e : Dependency) (o : Option Dependency)
      → visited_has visited e ≡ false
      → is_dep e o ≡ true
      → (unseen visited o && not (unseen (visited ++ dep_key e ∷ []) o)) ≡ true
  newly_seen visited e none h k = absurd (ground arith)
  newly_seen visited e (some f) h k =
      let same : dep_key e ≡ dep_key f = same_key_iff (dep_key e) (dep_key f) k in
      let before = ap (λ x. any (same_key x) visited) same in
      let itself : same_key (dep_key f) (dep_key e) ≡ true = ground (
        arith,
        ==_iff e.name f.name,
        ==_iff e.tag f.tag,
        ==_iff f.name e.name,
        ==_iff f.tag e.tag,
      ) in
      rw (any-append (same_key (dep_key f)) visited (dep_key e ∷ []), itself)
        (ground (arith, before))

  left-add :
      (visited : List DepKey) (e : Dependency)
      → visited_has visited e ≡ false
      → known e ≡ true
      → suc (left (visited ++ dep_key e ∷ [])) ≤ left visited
  left-add visited e h k =
      length-select_less (λ t. unseen visited (join_module d t))
        (λ t. unseen (visited ++ dep_key e ∷ []) (join_module d t)) d.tags
        (λ t. unseen-add visited e (join_module d t))
        (any-true (λ t. is_dep e (join_module d t)) _ d.tags
          (λ t. newly_seen visited e (join_module d t) h) k)

  -- What is still to do
  abbrev pub work : Search → ℕ
  work s = length s.queue + left s.visited

  offer-work : (s : Search) (e : Dependency) → known e ≡ true → work (offer s e) ≤ work s
  unfolding offer
  offer-work s e k = elim (Bool-cases (visited_has s.visited e)) [
    | inl old ↦ rw old (omega arith)
    | inr new ↦ rw new (omega (arith, length-append s.queue (e ∷ []), left-add s.visited e new k))
  ]

  pub offer_all-work :
      (s : Search) (es : List Dependency) → all known es ≡ true → work (offer_all s es) ≤ work s
  unfolding offer_all
  offer_all-work s [] h = omega arith
  offer_all-work s (e ∷ es) h =
      omega (arith, offer-work s e (ground arith), offer_all-work (offer s e) es (ground arith))
