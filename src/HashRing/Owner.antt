-- ===== src/HashRing/Owner.antt =====
-- Who owns a position of the ring, and how joining and leaving nodes change that.
use Prim.Native.String.{String}
use text.Mathlib.TextEquality.{eq_iff}
use object_store.Common.{
  ℕ, zero, suc, ◌+◌, ◌≡◌, ◌≢◌, refl, ◌⊎◌, inl, inr, [], ◌∷◌, none, some, arith,
}
use object_store.Common.Map.{Map}
use object_store.HashRing.{
  HashRing, insert, retain_others, remove_node, first_from, first, owner_at, add_vnodes, add_node,
  get_owner, vnodes_per_node, vnode_key,
}

-- An insertion changes the owner of no position but to the node inserted.
first_from-insert :
    (h k : ℕ) (v : String) (m : Map ℕ String)
    → (first_from h (insert k v m) ≡ first_from h m) ⊎ (first_from h (insert k v m) ≡ some v)
unfolding first_from insert
first_from-insert h k v [] = ground arith
first_from-insert h k v ((j, w) ∷ m) = ground (arith, first_from-insert h k v m)

first-insert :
    (k : ℕ) (v : String) (m : Map ℕ String)
    → (first (insert k v m) ≡ first m) ⊎ (first (insert k v m) ≡ some v)
unfolding insert
first-insert k v [] = inr refl
first-insert k v ((j, w) ∷ m) = ground arith

owner_at-insert :
    (h k : ℕ) (v : String) (m : Map ℕ String)
    → (owner_at h (insert k v m) ≡ owner_at h m) ⊎ (owner_at h (insert k v m) ≡ some v)
unfolding owner_at
owner_at-insert h k v m = ground (arith, first_from-insert h k v m, first-insert k v m)

module _ (xxh3 : String → ℕ) where
  owner_at-add_vnodes :
      (h : ℕ) (node : String) (n i : ℕ) (m : Map ℕ String)
      → (owner_at h (add_vnodes xxh3 node n i m) ≡ owner_at h m)
        ⊎ (owner_at h (add_vnodes xxh3 node n i m) ≡ some node)
  unfolding add_vnodes
  owner_at-add_vnodes h node zero i m = inl refl
  owner_at-add_vnodes h node (suc n) i m = ground (
    arith,
    owner_at-add_vnodes h node n (i + 1) (insert (xxh3 (vnode_key node i)) node m),
    owner_at-insert h (xxh3 (vnode_key node i)) node m,
  )

  pub get_owner-eq :
      (key : String) (r : HashRing) → get_owner xxh3 key r ≡ owner_at (xxh3 key) r.ring
  unfolding get_owner owner_at first_from
  get_owner-eq key r = by_ring r.ring refl
    where
      by_ring : (m : Map ℕ String) → r.ring ≡ m → get_owner xxh3 key r ≡ owner_at (xxh3 key) r.ring
      by_ring [] e = ground arith
      by_ring (_ ∷ _) e = ground arith

  -- A node that joins takes keys for itself and moves none between the other nodes.
  pub get_owner-add_node :
      (key node : String) (r : HashRing)
      → (get_owner xxh3 key (add_node xxh3 node r) ≡ get_owner xxh3 key r)
        ⊎ (get_owner xxh3 key (add_node xxh3 node r) ≡ some node)
  unfolding add_node
  get_owner-add_node key node r =
      rw (get_owner-eq key r, get_owner-eq key (add_node xxh3 node r))
        (owner_at-add_vnodes (xxh3 key) node vnodes_per_node 0 r.ring)

first_from-retain :
    (h : ℕ) (node w : String) (m : Map ℕ String)
    → w ≢ node
    → first_from h m ≡ some w
    → first_from h (retain_others node m) ≡ some w
unfolding first_from retain_others
first_from-retain h node w [] ne e = cc
first_from-retain h node w ((j, v) ∷ m) ne e =
    ground (arith, eq_iff v node, first_from-retain h node w m ne)

first_from-retain_none :
    (h : ℕ) (node : String) (m : Map ℕ String)
    → first_from h m ≡ none
    → first_from h (retain_others node m) ≡ none
unfolding first_from retain_others
first_from-retain_none h node [] e = refl
first_from-retain_none h node ((j, v) ∷ m) e = ground (arith, first_from-retain_none h node m)

first-retain :
    (node w : String) (m : Map ℕ String)
    → w ≢ node
    → first m ≡ some w
    → first (retain_others node m) ≡ some w
unfolding retain_others
first-retain node w [] ne e = cc
first-retain node w ((j, v) ∷ m) ne e = ground (arith, eq_iff v node)

owner_at-retain :
    (h : ℕ) (node w : String) (m : Map ℕ String)
    → w ≢ node
    → owner_at h m ≡ some w
    → owner_at h (retain_others node m) ≡ some w
unfolding owner_at
owner_at-retain h node w m ne e = ground (
  arith,
  first_from-retain h node w m ne,
  first_from-retain_none h node m,
  first-retain node w m ne,
)

-- No entry of a node that left is found.
first_from-left :
    (h : ℕ) (node : String) (m : Map ℕ String) → first_from h (retain_others node m) ≢ some node
unfolding first_from retain_others
first_from-left h node [] e = cc
first_from-left h node ((j, v) ∷ m) e = ground (arith, eq_iff v node, first_from-left h node m)

first-left : (node : String) (m : Map ℕ String) → first (retain_others node m) ≢ some node
unfolding retain_others
first-left node [] e = cc
first-left node ((j, v) ∷ m) e = ground (arith, eq_iff v node, first-left node m)

owner_at-left :
    (h : ℕ) (node : String) (m : Map ℕ String) → owner_at h (retain_others node m) ≢ some node
unfolding owner_at
owner_at-left h node m e = ground (arith, first_from-left h node m, first-left node m)

module _ (xxh3 : String → ℕ) where
  -- A node that leaves owns no key any more, and every key of another node stays with it.
  pub get_owner-remove_node :
      (key node : String) (r : HashRing)
      → (get_owner xxh3 key (remove_node node r) ≢ some node)
        × ((w : String)
            → w ≢ node
            → get_owner xxh3 key r ≡ some w
            → get_owner xxh3 key (remove_node node r) ≡ some w)
  unfolding remove_node
  get_owner-remove_node key node r =
      rw (get_owner-eq xxh3 key r, get_owner-eq xxh3 key (remove_node node r))
        (
          owner_at-left (xxh3 key) node r.ring,
          λ w ne e. owner_at-retain (xxh3 key) node w r.ring ne e,
        )

insert-ne-nil : (k : ℕ) (v : String) (m : Map ℕ String) → first (insert k v m) ≢ none
unfolding insert
insert-ne-nil k v [] e = cc
insert-ne-nil k v ((j, w) ∷ m) e = ground arith

module _ (xxh3 : String → ℕ) where
  first-add_vnodes :
      (node : String) (n i : ℕ) (m : Map ℕ String)
      → first m ≢ none
      → first (add_vnodes xxh3 node n i m) ≢ none
  unfolding add_vnodes
  first-add_vnodes node zero i m h = h
  first-add_vnodes node (suc n) i m h =
      first-add_vnodes node n (i + 1) _ (insert-ne-nil (xxh3 (vnode_key node i)) node m)

  first-add_node : (node : String) (r : HashRing) → first (add_node xxh3 node r).ring ≢ none
  unfolding add_node add_vnodes
  first-add_node node r =
      first-add_vnodes node 149 1 _ (insert-ne-nil (xxh3 (vnode_key node 0)) node r.ring)

  -- Once a node has joined, every key has an owner.
  pub get_owner-add_node_some :
      (key node : String) (r : HashRing) → get_owner xxh3 key (add_node xxh3 node r) ≢ none
  unfolding owner_at
  get_owner-add_node_some key node r e =
      ground (arith, first-add_node node r, get_owner-eq xxh3 key (add_node xxh3 node r))
