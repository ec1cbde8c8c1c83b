-- ===== src/Daemon/ExitNodePool/Identity.antt =====
-- An id names one exit node for as long as it is connected.
use apfsds_rs.Base.{
  ℕ, ◌+◌, ◌%◌, ◌^◌, ◌<◌, ◌≡◌, ◌≢◌, ◌↔◌, ◌⊎◌, inl, inr, refl, ap, sym, ◌∙◌, Bool, true, false, List,
  [], ◌∷◌, none, some, arith, Option-cases, none_ne_some, some_injective, ◌==◌, ==_iff, ==_refl,
  if◌then◌else◌,
}
use mathlib.Core.Path.{subst}
use apfsds_rs.Base.Maps.{DashMap, nat_eq}
use apfsds_rs.Daemon.ExitNodePool.{
  ExitNodeConnection, ExitNodePool, new, register, unregister, get, in_group, first_of,
  select_by_group, count,
}

abbrev pub Among : {A : Type 0} → A → List A → Type 0
Among a [] = ⊥
Among a (x ∷ xs) = (x ≡ a) ⊎ Among a xs

module _ (d : DashMap ℕ ExitNodeConnection) (iter : d.Map → List (ℕ × ExitNodeConnection)) where
  -- The pool's ids have been handed out, and an entry knows its own.
  pub record Inv (p : ExitNodePool d.Map) : Type 0 where
    pub handed_out :
        (id : ℕ) (conn : ExitNodeConnection)
        → d.get id p.connections ≡ some conn
        → (id < p.next_id) × (conn.node_id ≡ id)

  pub data Op : Type 0 where
    register_op : List ℕ → ℕ → ℕ → Op
    unregister_op : ℕ → Op

  abbrev pub step : ExitNodePool d.Map → Op → ExitNodePool d.Map
  step p (register_op name group_id sender) = (register d iter p name group_id sender).0
  step p (unregister_op node_id) = unregister d iter p node_id

  abbrev pub steps : ExitNodePool d.Map → List Op → ExitNodePool d.Map
  steps p [] = p
  steps p (op ∷ ops) = steps (step p op) ops

  abbrev pub registers : List Op → ℕ
  registers [] = 0
  registers (register_op name group_id sender ∷ ops) = registers ops + 1
  registers (unregister_op node_id ∷ ops) = registers ops

  step-Inv : (p : ExitNodePool d.Map) (op : Op) → p.next_id + 1 < 2 ^ 64 → Inv p → Inv (step p op)
  unfolding register unregister
  step-Inv p (register_op name group_id sender) small inv = record {
    handed_out = λ id conn e.
        by_id id conn (p.next_id == id) refl (sym (d.get-insert p.next_id id _ p.connections) ∙ e);
  }
    where
      by_id :
          (id : ℕ) (conn : ExitNodeConnection) (b : Bool)
          → (p.next_id == id) ≡ b
          → (if b
              then some (record {
                node_id = p.next_id;
                name = name;
                group_id = group_id;
                sender = sender;
              })
              else d.get id p.connections)
            ≡ some conn
          → (id < (p.next_id + 1) % 2 ^ 64) × (conn.node_id ≡ id)
      by_id id conn true same e =
          let here : p.next_id ≡ id = (==_iff p.next_id id).0 same in
          (
            omega arith,
            ap (λ (c : ExitNodeConnection). c.node_id) (sym (some_injective _ conn e)) ∙ here,
          )
      by_id id conn false other e = let (low, own) = inv.handed_out id conn e in (omega arith, own)
  step-Inv p (unregister_op node_id) small inv = record {
    handed_out = λ id conn e.
        by_id id conn (node_id == id) (sym (d.get-remove node_id id p.connections) ∙ e);
  }
    where
      by_id :
          (id : ℕ) (conn : ExitNodeConnection) (b : Bool)
          → (if b then none else d.get id p.connections) ≡ some conn
          → (id < p.next_id) × (conn.node_id ≡ id)
      by_id id conn true e = absurd (none_ne_some conn e)
      by_id id conn false e = inv.handed_out id conn e

  next_id_bound :
      (p : ExitNodePool d.Map) (op : Op) (ops : List Op)
      → p.next_id + registers (op ∷ ops) + 1 < 2 ^ 64
      → (step p op).next_id + registers ops + 1 < 2 ^ 64
  unfolding register unregister
  next_id_bound p (register_op name group_id sender) ops h = omega arith
  next_id_bound p (unregister_op node_id) ops h = omega arith

  steps-Inv :
      (p : ExitNodePool d.Map) (ops : List Op)
      → p.next_id + registers ops + 1 < 2 ^ 64
      → Inv p
      → Inv (steps p ops)
  steps-Inv p [] small inv = inv
  steps-Inv p (op ∷ ops) small inv =
      steps-Inv (step p op) ops (next_id_bound p op ops small)
        (step-Inv p op (omega (arith, small)) inv)

  new-Inv : Inv (new d iter)
  unfolding new
  new-Inv = record {
    handed_out = λ id conn e. absurd (none_ne_some conn (sym (d.get-empty id) ∙ e));
  }

  -- In a pool reached from the start with fewer than 2^64 - 2 registrations, a registration gives an
  -- id that no connected node has: it adds an entry with the node's name, group and channel, and
  -- leaves the entries of all other ids as they were.
  pub register-Fresh :
      (ops : List Op) (name : List ℕ) (group_id sender : ℕ)
      → registers ops + 2 < 2 ^ 64
      → let p : ExitNodePool d.Map = steps (new d iter) ops in
        let q : ExitNodePool d.Map × ℕ = register d iter p name group_id sender in
        (get d iter p (q.1) ≡ none)
        × (get d iter (q.0) (q.1)
            ≡ some (record { node_id = q.1; name = name; group_id = group_id; sender = sender }))
        × ((id : ℕ) → id ≢ q.1 → get d iter (q.0) id ≡ get d iter p id)
        × (count d iter (q.0) ≡ count d iter p + 1)
  unfolding register get count new
  register-Fresh ops name group_id sender few =
      let p : ExitNodePool d.Map = steps (new d iter) ops in
      let inv : Inv p = steps-Inv (new d iter) ops (omega arith) new-Inv in
      let free : d.get p.next_id p.connections ≡ none =
        elim (Option-cases (d.get p.next_id p.connections)) [
          | inl none_here ↦ none_here
          | inr (conn, e) ↦ absurd (omega (arith, (inv.handed_out p.next_id conn e).0))
        ] in
      (
        free,
        d.get-insert p.next_id p.next_id _ p.connections ∙ rw (==_refl p.next_id) refl,
        λ id other. d.get-insert p.next_id id _ p.connections ∙ ground (arith, ==_iff p.next_id id),
        d.len-insert p.next_id _ p.connections ∙ rw free refl,
      )

  -- The map's order is its own, and it lists exactly what it holds.
  abbrev pub Iterates : Type 0
  Iterates =
      (m : d.Map) (id : ℕ) (conn : ExitNodeConnection)
      → Among (id, conn) (iter m) ↔ (d.get id m ≡ some conn)

  in_group-Among :
      (group_id id : ℕ) (entries : List (ℕ × ExitNodeConnection))
      → Among id (in_group group_id entries)
      → (conn : ExitNodeConnection) × Among (id, conn) entries × (conn.group_id ≡ group_id)
  in_group-Among group_id id [] among = absurd among
  in_group-Among group_id id ((i, conn) ∷ entries) among =
      by_test (conn.group_id == group_id) refl among (in_group-Among group_id id entries)
    where
      by_test :
          (b : Bool)
          → (conn.group_id == group_id) ≡ b
          → Among id (if b then i ∷ in_group group_id entries else in_group group_id entries)
          → (Among id (in_group group_id entries)
              → (c : ExitNodeConnection) × Among (id, c) entries × (c.group_id ≡ group_id))
          → (c : ExitNodeConnection) × Among (id, c) ((i, conn) ∷ entries) × (c.group_id ≡ group_id)
      by_test true same (inl here) later =
          (conn, inl (ap (λ (n : ℕ). (n, conn)) here), (==_iff conn.group_id group_id).0 same)
      by_test true same (inr there) later =
          let (c, among, in_it) = later there in (c, inr among, in_it)
      by_test false other there later = let (c, among, in_it) = later there in (c, inr among, in_it)

  first_of-Among : (id : ℕ) (ids : List ℕ) → first_of ids ≡ some id → Among id ids
  first_of-Among id [] e = absurd (none_ne_some id e)
  first_of-Among id (i ∷ ids) e = inl (some_injective i id e)

  first_of-none : (id : ℕ) (ids : List ℕ) → first_of ids ≡ none → Among id ids → ⊥
  first_of-none id [] e among = among
  first_of-none id (i ∷ ids) e among = none_ne_some i (sym e)

  in_group_all :
      (id : ℕ) (conn : ExitNodeConnection) (entries : List (ℕ × ExitNodeConnection))
      → Among (id, conn) entries
      → Among id (in_group conn.group_id entries)
  in_group_all id conn [] among = absurd among
  in_group_all id conn ((i, c) ∷ entries) (inl here) =
      let same : (c.group_id == conn.group_id) ≡ true =
        (==_iff c.group_id conn.group_id).1
          (ap (λ (x : ℕ × ExitNodeConnection). x.1.group_id) here) in
      rw same (inl (ap (λ (x : ℕ × ExitNodeConnection). x.0) here))
  in_group_all id conn ((i, c) ∷ entries) (inr there) =
      by_test (c.group_id == conn.group_id) (in_group_all id conn entries there)
    where
      by_test :
          (b : Bool)
          → Among id (in_group conn.group_id entries)
          → Among id
              (if b then i ∷ in_group conn.group_id entries else in_group conn.group_id entries)
      by_test true later = inr later
      by_test false later = later

  -- A node that is selected for a group is connected and in that group; where none is selected, no
  -- connected node is in it.
  pub select_by_group-Among :
      (p : ExitNodePool d.Map) (group_id : ℕ)
      → Iterates
      → ((id : ℕ)
          → select_by_group d iter p group_id ≡ some id
          → (conn : ExitNodeConnection) × (get d iter p id ≡ some conn)
            × (conn.group_id ≡ group_id))
        × (select_by_group d iter p group_id ≡ none
            → (id : ℕ) (conn : ExitNodeConnection) → get d iter p id ≡ some conn
            → conn.group_id ≢ group_id)
  unfolding select_by_group get
  select_by_group-Among p group_id iterates = (
    λ id e.
        let (conn, among, in_it) =
          in_group-Among group_id id (iter p.connections) (first_of-Among id _ e) in
        (conn, (iterates p.connections id conn).0 among, in_it),
    λ e id conn found same. first_of-none id (in_group group_id (iter p.connections)) e (
        subst (λ (g : ℕ). Among id (in_group g (iter p.connections))) same
          (in_group_all id conn (iter p.connections) ((iterates p.connections id conn).1 found))),
  )
