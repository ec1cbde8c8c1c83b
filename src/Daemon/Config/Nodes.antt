-- ===== src/Daemon/Config/Nodes.antt =====
-- The exit nodes of a configuration after those of another one have been merged into it.
use apfsds_rs.Base.{
  ℕ, String, text_eq, text_eq_iff, ◌+◌, ◌≤◌, max, ◌≡◌, refl, ap, sym, ◌∙◌, Bool, true, false, List,
  [], ◌∷◌, Option, none, some, arith, if◌then◌else◌,
}
use mathlib.Core.Bool.{false≢true}
use apfsds_rs.Daemon.Config.{ExitNodeConfig, merge_node, merge_nodes}

-- The endpoint, the weight and the group of a node.
abbrev pub Route : Type 0
Route = String × ℕ × ℕ

abbrev pub route_of : ExitNodeConfig → Route
route_of node = (node.endpoint, node.weight, node.group_id)

-- Those of the first node of a name.
abbrev pub route : String → List ExitNodeConfig → Option Route
route name [] = none
route name (node ∷ nodes) =
    let later = route name nodes in if text_eq node.name name then some (route_of node) else later

-- Those of the last of some nodes, or what was there.
abbrev pub last_route : String → List ExitNodeConfig → Option Route → Option Route
last_route name [] before = before
last_route name (node ∷ nodes) before =
    last_route name nodes (if text_eq node.name name then some (route_of node) else before)

-- How many nodes have the name.
abbrev pub named : String → List ExitNodeConfig → ℕ
named name [] = 0
named name (node ∷ nodes) =
    let later = named name nodes in if text_eq node.name name then later + 1 else later

-- Two texts that are equal pass the same tests.
same_tests : (s t u : String) → text_eq s t ≡ true → text_eq s u ≡ text_eq t u
same_tests s t u e = ap (λ (x : String). text_eq x u) ((text_eq_iff s t).0 e)

both_equal : (s t u : String) → text_eq s u ≡ true → text_eq t u ≡ true → text_eq s t ≡ true
both_equal s t u su tu = (text_eq_iff s t).1 ((text_eq_iff s u).0 su ∙ sym ((text_eq_iff t u).0 tu))

-- The first of a list or one behind it, under a test that at most one of them passes.
swapped :
    {A : Type 0} (b c : Bool) (x y z w : A)
    → (b ≡ true → c ≡ true → ⊥)
    → w ≡ (if c then x else z)
    → (if b then y else w) ≡ (if c then x else (if b then y else z))
swapped true true x y z w apart e = absurd (apart refl refl)
swapped true false x y z w apart e = refl
swapped false true x y z w apart e = e
swapped false false x y z w apart e = e

replaced :
    {A : Type 0} (b c : Bool) (x y z : A)
    → b ≡ c
    → (if b then x else z) ≡ (if c then x else (if b then y else z))
replaced true true x y z e = refl
replaced false false x y z e = refl
replaced true false x y z e = absurd (cc)
replaced false true x y z e = absurd (cc)

counted :
    (b c : Bool) (m n : ℕ)
    → (b ≡ true → c ≡ true → ⊥)
    → m ≡ (if c then max 1 n else n)
    → (if b then m + 1 else m)
      ≡ (if c then max 1 (if b then n + 1 else n) else (if b then n + 1 else n))
counted true true m n apart e = absurd (apart refl refl)
counted true false m n apart e = omega arith
counted false true m n apart e = e
counted false false m n apart e = e

counted_once :
    (b c : Bool) (n : ℕ)
    → b ≡ c
    → (if b then n + 1 else n)
      ≡ (if c then max 1 (if b then n + 1 else n) else (if b then n + 1 else n))
counted_once true true n e = omega arith
counted_once false false n e = refl
counted_once true false n e = absurd (cc)
counted_once false true n e = absurd (cc)

module _ (name : String) where
  apart :
      (n node : ExitNodeConfig)
      → text_eq n.name node.name ≡ false
      → text_eq n.name name ≡ true
      → text_eq node.name name ≡ true
      → ⊥
  apart n node other here there =
      absurd (false≢true (sym other ∙ both_equal n.name node.name name here there))

  route-merge_node :
      (nodes : List ExitNodeConfig) (node : ExitNodeConfig)
      → route name (merge_node nodes node)
        ≡ (if text_eq node.name name then some (route_of node) else route name nodes)
  unfolding merge_node
  route-merge_node [] node = refl
  route-merge_node (n ∷ nodes) node =
      by_test (text_eq n.name node.name) refl (merge_node nodes node) (route-merge_node nodes node)
    where
      by_test :
          (b : Bool)
          → text_eq n.name node.name ≡ b
          → (merged : List ExitNodeConfig)
          → route name merged
            ≡ (if text_eq node.name name then some (route_of node) else route name nodes)
          → route name (
              if b
              then record n {
                endpoint = node.endpoint;
                weight = node.weight;
                group_id = node.group_id;
              }
                ∷ nodes
              else n ∷ merged)
            ≡ (if text_eq node.name name then some (route_of node) else route name (n ∷ nodes))
      by_test true same merged later =
          replaced (text_eq n.name name) (text_eq node.name name) (some (route_of node))
            (some (route_of n)) (route name nodes) (same_tests n.name node.name name same)
      by_test false other merged later =
          swapped (text_eq n.name name) (text_eq node.name name) (some (route_of node))
            (some (route_of n)) (route name nodes) (route name merged) (apart n node other) later

  named-merge_node :
      (nodes : List ExitNodeConfig) (node : ExitNodeConfig)
      → named name (merge_node nodes node)
        ≡ (if text_eq node.name name then max 1 (named name nodes) else named name nodes)
  unfolding merge_node
  named-merge_node [] node = refl
  named-merge_node (n ∷ nodes) node =
      by_test (text_eq n.name node.name) refl (merge_node nodes node) (named-merge_node nodes node)
    where
      by_test :
          (b : Bool)
          → text_eq n.name node.name ≡ b
          → (merged : List ExitNodeConfig)
          → named name merged
            ≡ (if text_eq node.name name then max 1 (named name nodes) else named name nodes)
          → named name (
              if b
              then record n {
                endpoint = node.endpoint;
                weight = node.weight;
                group_id = node.group_id;
              }
                ∷ nodes
              else n ∷ merged)
            ≡ (if text_eq node.name name
                then max 1 (named name (n ∷ nodes))
                else named name (n ∷ nodes))
      by_test true same merged later =
          counted_once (text_eq n.name name) (text_eq node.name name) (named name nodes)
            (same_tests n.name node.name name same)
      by_test false other merged later =
          counted (text_eq n.name name) (text_eq node.name name) (named name merged)
            (named name nodes) (apart n node other) later

  pub route-merge_nodes :
      (nodes others : List ExitNodeConfig)
      → route name (merge_nodes nodes others) ≡ last_route name others (route name nodes)
  unfolding merge_nodes
  route-merge_nodes nodes [] = refl
  route-merge_nodes nodes (node ∷ others) =
      route-merge_nodes (merge_node nodes node) others
      ∙ ap (last_route name others) (route-merge_node nodes node)

  pub named-merge_nodes :
      (nodes others : List ExitNodeConfig)
      → named name (merge_nodes nodes others) ≤ max 1 (named name nodes)
  unfolding merge_nodes
  named-merge_nodes nodes [] = omega arith
  named-merge_nodes nodes (node ∷ others) =
      let one : named name (merge_node nodes node) ≤ max 1 (named name nodes) =
        ground (arith, named-merge_node nodes node) in
      omega (arith, one, named-merge_nodes (merge_node nodes node) others)
