-- ===== src/Transport/ExitPool/Health.antt =====
-- crates/transport/src/exit_pool.rs: the pool as it is built, its health checks and its counts. Whether
-- the HTTP client of a node can be built, and how a node answers a check, are arguments.
use apfsds_rs.Base.{
  ℕ, ◌+◌, ◌≤◌, ◌≡◌, refl, ap, sym, ◌∙◌, Bool, true, List, [], ◌∷◌, ◌++◌, Option, none, some, Result,
  ok, err, ok_injective, arith, length, length-append, if◌then◌else◌,
}
use apfsds_rs.Base.Maps.{nat_eq, assoc_get, assoc_insert}
use apfsds_rs.Transport.ExitPool.{ExitClient, ExitClientError, GroupPool}

pub record ExitNodeDefinition : Type 0 where
  pub url : List ℕ
  pub group_id : ℕ

abbrev or_default : Option (List ExitClient) → List ExitClient
or_default none = []
or_default (some clients) = clients

abbrev Clients : Type 0
Clients = List (ℕ × List ExitClient)

-- The clients of each group, in the order of the definitions; the first client that cannot be built
-- is the answer.
unfoldable pub collect :
    (List ℕ → Option ExitClientError)
    → Clients
    → List ExitNodeDefinition
    → Result ExitClientError Clients
collect fails groups [] = ok groups
collect fails groups (node ∷ nodes) =
    let client : ExitClient = record { base_url = node.url; healthy = true } in
    let later : Result ExitClientError Clients =
      collect fails
        (assoc_insert node.group_id (or_default (assoc_get node.group_id groups) ++ (client ∷ []))
          groups)
        nodes in
    elim (fails node.url) [ some e ↦ err e | none ↦ later ]

abbrev pub pools : Clients → List (ℕ × GroupPool)
pools [] = []
pools ((id, clients) ∷ groups) = (id, record { clients = clients; next_index = 0 }) ∷ pools groups

unfoldable pub new :
    (List ℕ → Option ExitClientError)
    → List ExitNodeDefinition
    → Result ExitClientError (List (ℕ × GroupPool))
unfolding collect
new fails nodes = elim (collect fails [] nodes) [ ok groups ↦ ok (pools groups) | err e ↦ err e ]

-- The flag becomes the answer.
unfoldable pub health_check : (List ℕ → Bool) → ExitClient → ExitClient
health_check answers c = record c { healthy = answers c.base_url }

abbrev pub check_clients : (List ℕ → Bool) → List ExitClient → List ExitClient
check_clients answers [] = []
check_clients answers (c ∷ cs) = health_check answers c ∷ check_clients answers cs

unfoldable pub health_check_all : (List ℕ → Bool) → List (ℕ × GroupPool) → List (ℕ × GroupPool)
unfolding health_check
health_check_all answers [] = []
health_check_all answers ((id, g) ∷ groups) =
    (id, record g { clients = check_clients answers g.clients }) ∷ health_check_all answers groups

abbrev pub healthy_in : List ExitClient → ℕ
healthy_in [] = 0
healthy_in (c ∷ cs) = let rest = healthy_in cs in if c.healthy then rest + 1 else rest

unfoldable pub healthy_count : List (ℕ × GroupPool) → ℕ
healthy_count [] = 0
healthy_count ((id, g) ∷ groups) = healthy_in g.clients + healthy_count groups

unfoldable pub total_count : List (ℕ × GroupPool) → ℕ
total_count [] = 0
total_count ((id, g) ∷ groups) = length g.clients + total_count groups

-- How many nodes would answer.
abbrev pub answering : (List ℕ → Bool) → List ExitClient → ℕ
answering answers [] = 0
answering answers (c ∷ cs) =
    let rest = answering answers cs in if answers c.base_url then rest + 1 else rest

abbrev pub answering_all : (List ℕ → Bool) → List (ℕ × GroupPool) → ℕ
answering_all answers [] = 0
answering_all answers ((id, g) ∷ groups) =
    answering answers g.clients + answering_all answers groups

healthy_in-check :
    (answers : List ℕ → Bool) (cs : List ExitClient)
    → healthy_in (check_clients answers cs) ≡ answering answers cs
unfolding health_check
healthy_in-check answers [] = refl
healthy_in-check answers (c ∷ cs) =
    ap (λ (n : ℕ). if answers c.base_url then n + 1 else n) (healthy_in-check answers cs)

length-check :
    (answers : List ℕ → Bool) (cs : List ExitClient) → length (check_clients answers cs) ≡ length cs
length-check answers [] = refl
length-check answers (c ∷ cs) = omega (arith, length-check answers cs)

healthy_in_le : (cs : List ExitClient) → healthy_in cs ≤ length cs
healthy_in_le [] = omega arith
healthy_in_le (c ∷ cs) = ground (arith, healthy_in_le cs)

-- After a round of checks exactly the nodes that answered count as healthy, those that had failed
-- before among them; no node is lost, and never more nodes are healthy than there are.
pub health_check_all-counts :
    (answers : List ℕ → Bool) (groups : List (ℕ × GroupPool))
    → (healthy_count (health_check_all answers groups) ≡ answering_all answers groups)
      × (total_count (health_check_all answers groups) ≡ total_count groups)
      × (healthy_count groups ≤ total_count groups)
unfolding health_check_all healthy_count total_count
health_check_all-counts answers [] = (refl, refl, omega arith)
health_check_all-counts answers ((id, g) ∷ groups) =
    let (healthy, total, fewer) = health_check_all-counts answers groups in
    (
      omega (arith, healthy, healthy_in-check answers g.clients),
      omega (arith, total, length-check answers g.clients),
      omega (arith, fewer, healthy_in_le g.clients),
    )

client_count : Clients → ℕ
client_count [] = 0
client_count ((id, clients) ∷ groups) = length clients + client_count groups

client_count-insert :
    (id : ℕ) (client : ExitClient) (groups : Clients)
    → client_count (assoc_insert id (or_default (assoc_get id groups) ++ (client ∷ [])) groups)
      ≡ client_count groups + 1
unfolding client_count
client_count-insert id client [] = refl
client_count-insert id client ((i, clients) ∷ groups) =
    ground (arith, client_count-insert id client groups, length-append clients (client ∷ []))

collect_count :
    (fails : List ℕ → Option ExitClientError) (groups made : Clients)
    (nodes : List ExitNodeDefinition)
    → collect fails groups nodes ≡ ok made
    → client_count made ≡ client_count groups + length nodes
unfolding collect
collect_count fails groups made [] e =
    ap client_count (sym (ok_injective groups made e)) ∙ omega arith
collect_count fails groups made (node ∷ nodes) e =
    by_client (fails node.url) e (λ h. collect_count fails next made nodes h)
  where
    client : ExitClient
    client = record { base_url = node.url; healthy = true }

    next : Clients
    next =
        assoc_insert node.group_id (or_default (assoc_get node.group_id groups) ++ (client ∷ []))
          groups

    by_client :
        (failure : Option ExitClientError)
        → (elim failure as (λ _. Result ExitClientError Clients) [
          | some x ↦ err x
          | none ↦ collect fails next nodes
        ])
          ≡ ok made
        → (collect fails next nodes ≡ ok made
            → client_count made ≡ client_count next + length nodes)
        → client_count made ≡ client_count groups + length (node ∷ nodes)
    by_client (some x) h later = absurd (cc)
    by_client none h later = omega (arith, later h, client_count-insert node.group_id client groups)

total_count-pools : (groups : Clients) → total_count (pools groups) ≡ client_count groups
unfolding total_count client_count
total_count-pools [] = refl
total_count-pools ((id, clients) ∷ groups) = omega (arith, total_count-pools groups)

-- A pool that could be built has a client for each definition, however the groups repeat.
pub total_count-new :
    (fails : List ℕ → Option ExitClientError) (nodes : List ExitNodeDefinition)
    (groups : List (ℕ × GroupPool))
    → new fails nodes ≡ ok groups
    → total_count groups ≡ length nodes
unfolding new client_count
total_count-new fails nodes groups e = by_groups (collect fails [] nodes) refl e
  where
    by_groups :
        (r : Result ExitClientError Clients)
        → collect fails [] nodes ≡ r
        → (elim r as (λ _. Result ExitClientError (List (ℕ × GroupPool))) [
          | ok made ↦ ok (pools made)
          | err x ↦ err x
        ])
          ≡ ok groups
        → total_count groups ≡ length nodes
    by_groups (err x) h g = absurd (cc)
    by_groups (ok made) h g =
        ap total_count (sym (ok_injective (pools made) groups g))
        ∙ total_count-pools made
        ∙ collect_count fails [] made nodes h
        ∙ omega arith
