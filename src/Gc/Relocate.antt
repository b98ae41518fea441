-- ===== src/Gc/Relocate.antt =====
-- Where the references of an object go when the collector of vm/src/alloc.c moves what they point at.
use owlang.Base.{
  ℕ, ◌+◌, ◌≡◌, ◌≢◌, ◌⊎◌, refl, ap, Bool, true, false, ◌&&◌, leb, List, [], ◌∷◌, map, All, All-split,
  if◌then◌else◌,
}
use owlang.Rrb.{Node, Nodes}
use owlang.Rrb.View.{node_list, nodes_list, rrb_list}
use owlang.Term.{owl_extract_ptr, owl_tag_of, owl_tag_with}
use owlang.Vm.{Object, GcState}

unfoldable mutual
  pub map_node : (ℕ → ℕ) → Node → Node
  map_node f Node.null = Node.null
  map_node f (Node.leaf xs) = Node.leaf (map f xs)
  map_node f (Node.internal table cs) = Node.internal table (map_nodes f cs)

  pub map_nodes : (ℕ → ℕ) → Nodes → Nodes
  map_nodes f Nodes.nil = Nodes.nil
  map_nodes f (Nodes.cons c cs) = Nodes.cons (map_node f c) (map_nodes f cs)

-- The words of an object that are terms.
unfoldable pub refs : Object → List ℕ
unfolding rrb_list
refs (Object.tuple xs) = xs
refs (Object.string bytes) = []
refs (Object.unterminated bytes) = []
refs (Object.function f) = f.upvalues
refs (Object.list r) = rrb_list r

-- The object with each of them replaced.
unfoldable pub map_refs : (ℕ → ℕ) → Object → Object
unfolding map_node
map_refs f (Object.tuple xs) = Object.tuple (map f xs)
map_refs f (Object.string bytes) = Object.string bytes
map_refs f (Object.unterminated bytes) = Object.unterminated bytes
map_refs f (Object.function g) = Object.function (record g { upvalues = map f g.upvalues })
map_refs f (Object.list r) =
    Object.list (record r { root = map_node f r.root; tail = map f r.tail })

pub map-agree : (f g : ℕ → ℕ) (xs : List ℕ) → All (λ x. f x ≡ g x) xs → map f xs ≡ map g xs
map-agree f g [] h = refl
map-agree f g (x ∷ xs) (e, h) = cc (map-agree f g xs h)

mutual
  unfolding map_node map_nodes node_list nodes_list

  pub map_node-agree :
      (f g : ℕ → ℕ) (node : Node)
      → All (λ x. f x ≡ g x) (node_list node)
      → map_node f node ≡ map_node g node
  map_node-agree f g Node.null h = refl
  map_node-agree f g (Node.leaf xs) h = ap Node.leaf (map-agree f g xs h)
  map_node-agree f g (Node.internal table cs) h =
      ap (Node.internal table) (map_nodes-agree f g cs h)

  pub map_nodes-agree :
      (f g : ℕ → ℕ) (nodes : Nodes)
      → All (λ x. f x ≡ g x) (nodes_list nodes)
      → map_nodes f nodes ≡ map_nodes g nodes
  map_nodes-agree f g Nodes.nil h = refl
  map_nodes-agree f g (Nodes.cons c cs) h =
      let (first, rest) = All-split (λ x. f x ≡ g x) (node_list c) (nodes_list cs) h in
      cc (map_node-agree f g c first, map_nodes-agree f g cs rest)

-- Only what the replacement does with the references matters.
pub map_refs-agree :
    (f g : ℕ → ℕ) (object : Object)
    → All (λ x. f x ≡ g x) (refs object)
    → map_refs f object ≡ map_refs g object
unfolding map_refs refs
map_refs-agree f g (Object.tuple xs) h = ap Object.tuple (map-agree f g xs h)
map_refs-agree f g (Object.string bytes) h = refl
map_refs-agree f g (Object.unterminated bytes) h = refl
map_refs-agree f g (Object.function k) h = cc (map-agree f g k.upvalues h)
map_refs-agree f g (Object.list r) h =
    let (first, rest) = All-split (λ x. f x ≡ g x) (node_list r.root) r.tail h in
    cc (map_node-agree f g r.root first, map-agree f g r.tail rest)

-- In the terms of the heap `gc` the address of a term is replaced by the forward address.
module _ (gc : GcState) where
  -- `ON_HEAP`
  abbrev pub in_heap : ℕ → Bool
  in_heap ptr = leb gc.from_space ptr && leb ptr (gc.from_space + gc.size)

  unfoldable pub moved : (ℕ → ℕ) → ℕ → ℕ
  moved forwards term =
      if in_heap (owl_extract_ptr term)
      then owl_tag_with (forwards (owl_extract_ptr term)) (owl_tag_of term)
      else term

  -- The term does not point into the heap, or at an object that has been moved.
  abbrev pub IsSettled : (ℕ → ℕ) → ℕ → Type 0
  IsSettled forwards term =
      (in_heap (owl_extract_ptr term) ≡ false) ⊎ (forwards (owl_extract_ptr term) ≢ 0)

  -- Objects that have been moved stay where they are.
  abbrev pub Agrees : (ℕ → ℕ) → (ℕ → ℕ) → ℕ → Type 0
  Agrees forwards forwards' term =
      IsSettled forwards term
      → in_heap (owl_extract_ptr term) ≡ true
      → forwards' (owl_extract_ptr term) ≡ forwards (owl_extract_ptr term)

  pub moved-agree :
      (forwards forwards' : ℕ → ℕ) (term : ℕ)
      → IsSettled forwards term
      → Agrees forwards forwards' term
      → moved forwards' term ≡ moved forwards term
  unfolding moved
  moved-agree forwards forwards' term settled agrees = by_place _ refl
    where
      by_place :
          (inside : Bool)
          → in_heap (owl_extract_ptr term) ≡ inside
          → moved forwards' term ≡ moved forwards term
      by_place true inside = rw (inside, agrees settled inside) refl
      by_place false outside = rw outside refl
