-- ===== src/Replication/Nodes.antt =====
-- What the choice of a target, the question for its free slots and the clean-up come to.
use Prim.Native.String.{String}
use object_store.Common.{
  ℕ, zero, suc, ◌≡◌, ◌≢◌, ◌<◌, arith, ltb, All, subst, [], ◌∷◌, refl, ap, List, Bool, true, false,
  ◌==◌, ==_iff, Bool-cases, inl, inr,
}
use object_store.Clients.{Answer, answered, refused, RpcCode, Clients, StorageNodeMessage}
use object_store.Replication.{holds, eligible_nodes, has_space, clean_up, is_empty}

pub is_empty-nil : {A : Type 0} (xs : List A) → is_empty xs ≡ true → xs ≡ []
is_empty-nil [] e = refl
is_empty-nil (x ∷ xs) e = absurd (cc e)

-- The nodes of a list that have no replica, in their order.
pub data Eligible (ids : List ℕ) : List StorageNodeMessage → List StorageNodeMessage → Type 0 where
  no_nodes : Eligible ids [] []
  replica :
      {n : StorageNodeMessage} {nodes rest : List StorageNodeMessage}
      → ¬ All (λ id. id ≢ n.id) ids
      → Eligible ids nodes rest
      → Eligible ids (n ∷ nodes) rest
  without :
      {n : StorageNodeMessage} {nodes rest : List StorageNodeMessage}
      → All (λ id. id ≢ n.id) ids
      → Eligible ids nodes rest
      → Eligible ids (n ∷ nodes) (n ∷ rest)

holds-false : (ids : List ℕ) (id : ℕ) → holds ids id ≡ false → All (λ i. i ≢ id) ids
unfolding holds
holds-false [] id e = tt
holds-false (i ∷ ids) id e = elim (Bool-cases (i == id)) [
  | inl h ↦ absurd (cc (rw h at e))
  | inr h ↦ ((λ same. cc (h, (==_iff i id).1 same)), holds-false ids id (rw h at e))
]

holds-true : (ids : List ℕ) (id : ℕ) → holds ids id ≡ true → ¬ All (λ i. i ≢ id) ids
unfolding holds
holds-true [] id e h = cc e
holds-true (i ∷ ids) id e h = elim (Bool-cases (i == id)) [
  | inl k ↦ h.0 ((==_iff i id).0 k)
  | inr k ↦ holds-true ids id (rw k at e) h.1
]

pub eligible_nodes-Eligible :
    (ids : List ℕ) (nodes : List StorageNodeMessage) → Eligible ids nodes (eligible_nodes ids nodes)
unfolding eligible_nodes
eligible_nodes-Eligible ids [] = no_nodes
eligible_nodes-Eligible ids (n ∷ nodes) = elim (Bool-cases (holds ids n.id)) [
  | inl h ↦ rw h (replica (holds-true ids n.id h) (eligible_nodes-Eligible ids nodes))
  | inr h ↦ rw h (without (holds-false ids n.id h) (eligible_nodes-Eligible ids nodes))
]

module _ {W : Type 0} (cl : Clients W) where
  -- A node that can be reached and answers that it has a free slot.
  pub record HasRoom (address : String) (w w' : W) : Type 0 where
    pub connected : W
    pub num_free : ℕ
    pub connects : cl.connect address w ≡ (answered tt, connected)
    pub free : cl.storage.get_free_chunks address connected ≡ (answered num_free, w')
    pub some_free : 0 < num_free

  pub has_space-HasRoom :
      (address : String) (w w' : W) → has_space cl address w ≡ (true, w') → HasRoom address w w'
  unfolding has_space
  has_space-HasRoom address w w' = by_connection (cl.connect address w).0 refl
    where
      t : W
      t = (cl.connect address w).1

      u : W
      u = (cl.storage.get_free_chunks address t).1

      Goal : Type 0
      Goal = has_space cl address w ≡ (true, w') → HasRoom address w w'

      by_free :
          (cl.connect address w).0 ≡ answered tt
          → (y : Answer ℕ) → (cl.storage.get_free_chunks address t).0 ≡ y
          → Goal
      by_free c (answered num_free) f =
          rw (c, has_space)
            (rw f (λ e.
              let last : u ≡ w' = ap (λ (q : Bool × W). q.1) e in
              let more : ltb 0 num_free ≡ true = ap (λ (q : Bool × W). q.0) e in
              record {
                connected = t;
                num_free = num_free;
                connects = ap (λ (x : Answer (Unit {0})). (x, t)) c;
                free =
                    subst (λ (v : W). cl.storage.get_free_chunks address t ≡ (answered num_free, v))
                      last (ap (λ (y : Answer ℕ). (y, u)) f);
                some_free = ground (arith, more);
              }))
      by_free c (refused code) f =
          rw (c, has_space) (rw f (λ e. absurd (cc (ap (λ (q : Bool × W). q.0) e))))

      by_connection : (x : Answer (Unit {0})) → (cl.connect address w).0 ≡ x → Goal
      by_connection (answered _) c = by_free c (cl.storage.get_free_chunks address t).0 refl
      by_connection (refused code) c =
          rw (c, has_space) (λ e. absurd (cc (ap (λ (q : Bool × W). q.0) e)))

  -- A node that cannot be reached, does not answer, or has no free slot.
  pub data NoRoom (address : String) (w : W) : W → Type 0 where
    not_reached :
        {code : RpcCode} {w' : W} → cl.connect address w ≡ (refused code, w') → NoRoom address w w'
    not_answered :
        {connected : W} {code : RpcCode} {w' : W}
        → cl.connect address w ≡ (answered tt, connected)
        → cl.storage.get_free_chunks address connected ≡ (refused code, w')
        → NoRoom address w w'
    full :
        {connected : W} {w' : W}
        → cl.connect address w ≡ (answered tt, connected)
        → cl.storage.get_free_chunks address connected ≡ (answered 0, w')
        → NoRoom address w w'

  pub has_space-NoRoom :
      (address : String) (w w' : W) → has_space cl address w ≡ (false, w') → NoRoom address w w'
  unfolding has_space
  has_space-NoRoom address w w' = by_connection (cl.connect address w).0 refl
    where
      t : W
      t = (cl.connect address w).1

      u : W
      u = (cl.storage.get_free_chunks address t).1

      Goal : Type 0
      Goal = has_space cl address w ≡ (false, w') → NoRoom address w w'

      by_free :
          (cl.connect address w).0 ≡ answered tt
          → (y : Answer ℕ) → (cl.storage.get_free_chunks address t).0 ≡ y
          → Goal
      by_free c (answered zero) f =
          rw (c, has_space)
            (rw f (λ e.
              subst (NoRoom address w) (ap (λ (q : Bool × W). q.1) e) (
                full (ap (λ (x : Answer (Unit {0})). (x, t)) c) (ap (λ (y : Answer ℕ). (y, u)) f))))
      by_free c (answered (suc n)) f =
          rw (c, has_space)
            (rw f (λ e.
              let none_free : ltb 0 (suc n) ≡ false = ap (λ (q : Bool × W). q.0) e in
              absurd (ground (arith, none_free))))
      by_free c (refused code) f =
          rw (c, has_space)
            (rw f (λ e. subst (NoRoom address w) (ap (λ (q : Bool × W). q.1) e) (
              not_answered (ap (λ (x : Answer (Unit {0})). (x, t)) c)
                (ap (λ (y : Answer ℕ). (y, u)) f))))

      by_connection : (x : Answer (Unit {0})) → (cl.connect address w).0 ≡ x → Goal
      by_connection (answered _) c = by_free c (cl.storage.get_free_chunks address t).0 refl
      by_connection (refused code) c =
          rw (c, has_space)
            (λ e.
              subst (NoRoom address w) (ap (λ (q : Bool × W). q.1) e)
                (not_reached (ap (λ (x : Answer (Unit {0})). (x, t)) c)))

  -- The copy is deleted from its target again, if a connection can be had.
  pub data CleansUp (address : String) (id : ℕ) (w : W) : W → Type 0 where
    deletes :
        {connected w' : W} {a : Answer (Unit {0})}
        → cl.connect address w ≡ (answered tt, connected)
        → cl.storage.delete_chunk address id connected ≡ (a, w')
        → CleansUp address id w w'
    unreachable :
        {code : RpcCode} {w' : W}
        → cl.connect address w ≡ (refused code, w')
        → CleansUp address id w w'

  pub clean_up-CleansUp :
      (address : String) (id : ℕ) (w : W) → CleansUp address id w (clean_up cl address id w)
  unfolding clean_up
  clean_up-CleansUp address id w = by_connection (cl.connect address w).0 refl
    where
      t : W
      t = (cl.connect address w).1

      by_connection :
          (x : Answer (Unit {0}))
          → (cl.connect address w).0 ≡ x
          → CleansUp address id w (clean_up cl address id w)
      by_connection (answered _) c =
          rw (c, clean_up) (deletes (ap (λ (x : Answer (Unit {0})). (x, t)) c) refl)
      by_connection (refused code) c =
          rw (c, clean_up) (unreachable (ap (λ (x : Answer (Unit {0})). (x, t)) c))
