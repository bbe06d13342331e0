-- ===== src/Lru/Recent.antt =====
-- What a cache stands for: its elements with their data, the latest first.
use tracker_miners.Base.Options.{none_of, some_inj}
use tracker_miners.Base.{
  ℕ, ◌≡◌, refl, ap, sym, subst, ◌∙◌, false, none, some, Bool-cases, inl, inr, List, [], ◌∷◌, arith,
  nat_eq, nat_eq_iff, Eq, ◌==◌, Table, lookup, remove_key, is_some,
}
use tracker_miners.Lru.{LruElement, node_at, unlink}
use tracker_miners.Base.UniqueKeys.{IsTable, remove_key-absent}

module _ {E D : Type 0} where
  abbrev pub pairs : List (LruElement E D) → Table E D
  pairs [] = []
  pairs (n ∷ ns) = (n.element, n.value) ∷ pairs ns

  abbrev pub links : List (LruElement E D) → Table E ℕ
  links [] = []
  links (n ∷ ns) = (n.element, n.link) ∷ links ns

  -- no two nodes have one link
  abbrev pub HasDistinct : List (LruElement E D) → Type 0
  HasDistinct [] = Unit {0}
  HasDistinct (n ∷ ns) = (node_at n.link ns ≡ none) × HasDistinct ns

module _ {E D : Type 0} ⦃keys : Eq E⦄ where
  -- an element is in both or in none
  pub lookup-both :
      (e : E) (q : List (LruElement E D))
      → is_some (lookup e (links q)) ≡ is_some (lookup e (pairs q))
  unfolding lookup
  lookup-both e [] = refl
  lookup-both e (n ∷ ns) = ground (arith, lookup-both e ns)

  -- the node of an element
  abbrev Node : E → ℕ → List (LruElement E D) → Type 0
  Node e l q =
      (n : LruElement E D) × (node_at l q ≡ some n)
      × (n.element ≡ e)
      × (n.link ≡ l)
      × (lookup e (pairs q) ≡ some n.value)
      × (links (unlink l q) ≡ remove_key e (links q))
      × (pairs (unlink l q) ≡ remove_key e (pairs q))

  links_absent :
      (e : E) (q : List (LruElement E D)) → lookup e (pairs q) ≡ none → lookup e (links q) ≡ none
  links_absent e q h = none_of (lookup e (links q)) (lookup-both e q ∙ ap is_some h)

  pub other_link :
      (n : LruElement E D) (l : ℕ) (q : List (LruElement E D)) (m : LruElement E D)
      → node_at n.link q ≡ none
      → node_at l q ≡ some m
      → nat_eq n.link l ≡ false
  other_link n l q m absent at = elim (Bool-cases (nat_eq n.link l)) [
    | inl same ↦
        absurd (ground (arith, at, absent, ap (λ k. node_at k q) ((nat_eq_iff n.link l).0 same)))
    | inr apart ↦ apart
  ]

  lookup-Node :
      (e : E) (l : ℕ) (q : List (LruElement E D))
      → IsTable (pairs q)
      → HasDistinct q
      → lookup e (links q) ≡ some l
      → Node e l q
  unfolding lookup remove_key unlink
  lookup-Node e l [] t d h = absurd (ground (arith, h))
  lookup-Node e l (n ∷ ns) t d h = elim (Bool-cases (n.element == e)) [
    | inl here ↦
        let el = (keys.same_iff n.element e).0 here in
        let li : n.link ≡ l = some_inj n.link l (ground (arith, h, here)) in
        let gone : lookup e (pairs ns) ≡ none = ap (λ x. lookup x (pairs ns)) (sym el) ∙ t.0 in
        let gone_link = links_absent e ns gone in
        (
          n,
          ground (arith, li, nat_eq_iff n.link l),
          el,
          li,
          ground (arith, here),
          ground (arith, here, nat_eq_iff n.link l, li, remove_key-absent e (links ns) gone_link),
          ground (arith, here, nat_eq_iff n.link l, li, remove_key-absent e (pairs ns) gone),
        )
    | inr there ↦
        let (m, at, el, li, va, lk, pr) = lookup-Node e l ns t.1 d.1 (ground (arith, h, there)) in
        let apart = other_link n l ns m d.0 at in
        (
          m,
          ground (arith, at, apart),
          el,
          li,
          ground (arith, va, there),
          ground (arith, lk, apart, there),
          ground (arith, pr, apart, there),
        )
  ]

  -- a node of the queue
  pub record IsNode (n : LruElement E D) (q : List (LruElement E D)) : Type 0 where
    pub here : node_at n.link q ≡ some n
    pub link_of : lookup n.element (links q) ≡ some n.link
    pub value_of : lookup n.element (pairs q) ≡ some n.value
    pub links_left : links (unlink n.link q) ≡ remove_key n.element (links q)
    pub pairs_left : pairs (unlink n.link q) ≡ remove_key n.element (pairs q)

  pub lookup-IsNode :
      (e : E) (l : ℕ) (q : List (LruElement E D))
      → IsTable (pairs q)
      → HasDistinct q
      → lookup e (links q) ≡ some l
      → (n : LruElement E D) × (n.element ≡ e) × (n.link ≡ l) × (node_at l q ≡ some n) × IsNode n q
  lookup-IsNode e l q t d h =
      let (n, at, el, li, va, lk, pr) = lookup-Node e l q t d h in
      (
        n,
        el,
        li,
        at,
        record {
          here = subst (λ k. node_at k q ≡ some n) (sym li) at;
          link_of = ap (λ x. lookup x (links q)) el ∙ (h ∙ ap some (sym li));
          value_of = ap (λ x. lookup x (pairs q)) el ∙ va;
          links_left =
              ap (λ k. links (unlink k q)) li ∙ (lk ∙ ap (λ x. remove_key x (links q)) (sym el));
          pairs_left =
              ap (λ k. pairs (unlink k q)) li ∙ (pr ∙ ap (λ x. remove_key x (pairs q)) (sym el));
        },
      )
