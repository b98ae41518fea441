-- ===== src/Rrb/Tree/Slot.antt =====
-- The slots of a node's children in vm/src/std/owl_list.c, as the radix and the size tables give them.
use owlang.Base.{
  ◌++◌, set, set-append_left, set-append_right, ℕ, zero, suc, ◌+◌, ◌-◌, ◌*◌, ◌/◌, ◌^◌, ◌≤◌, ◌<◌,
  ◌≡◌, refl, ap, sym, ◌∙◌, arith, List, [], ◌∷◌, length, All, drop, length-append, get_elem?,
  get_elem?-append_left, get_elem?-append_right, ltb, leb, Bool-cases, inl, inr, true, false, ◌==◌,
}
use owlang.Base.Outcome.{done-injective, done}
use owlang.Rrb.{Node, Nodes, nodes_to_list, nodes_get, read, read_node}
use owlang.Rrb.Nth.{scan_table, sized_pos}
use owlang.Rrb.View.{node_list}
use owlang.Rrb.Tree.{flat, size, sums, Front, Full, Radix, width, width-pow, Full-size, Full-Radix}

pub nodes_get-read_node : (cs : Nodes) (k : ℕ) → nodes_get cs k ≡ read_node (nodes_to_list cs) k
unfolding nodes_get nodes_to_list read_node
nodes_get-read_node Nodes.nil k = refl
nodes_get-read_node (Nodes.cons c cs) zero = refl
nodes_get-read_node (Nodes.cons c cs) (suc k) = nodes_get-read_node cs k

-- The child that holds the place `p` of the elements below some nodes, of which `before` lie before it.
pub record Slot (cs : List Node) (p : ℕ) : Type 0 where
  pub k : ℕ
  pub child : Node
  pub before : ℕ
  pub inner : ℕ
  pub at : read_node cs k ≡ done child
  pub place : p ≡ before + inner
  pub inside : inner < size child
  pub same : get_elem? (flat cs) p ≡ get_elem? (node_list child) inner
  pub bound : k < length cs
  pub written :
      (c : Node) (v : ℕ)
      → node_list c ≡ set (node_list child) inner v
      → flat (set cs k c) ≡ set (flat cs) p v

slot_here : (c : Node) (cs : List Node) (p : ℕ) → p < size c → Slot (c ∷ cs) p
unfolding read_node
slot_here c cs p h = record {
  k = 0;
  child = c;
  before = 0;
  inner = p;
  at = refl;
  place = omega arith;
  inside = h;
  same = get_elem?-append_left (node_list c) (flat cs) p h;
  bound = omega arith;
  written =
      λ d v e. ap (λ xs. xs ++ flat cs) e ∙ sym (set-append_left (node_list c) (flat cs) p v h);
}

slot_later :
    (c : Node) (cs : List Node) (p : ℕ) → size c ≤ p → Slot cs (p - size c) → Slot (c ∷ cs) p
unfolding read_node
slot_later c cs p h s = record {
  k = suc s.k;
  child = s.child;
  before = size c + s.before;
  inner = s.inner;
  at = s.at;
  place = omega (arith, s.place);
  inside = s.inside;
  same = get_elem?-append_right (node_list c) (flat cs) p h ∙ s.same;
  bound = omega (arith, s.bound);
  written = λ d v e.
      ap (λ xs. node_list c ++ xs) (s.written d v e)
      ∙ sym (set-append_right (node_list c) (flat cs) p v h);
}

-- Without size tables all children before the slot are full.
pub Front-slot :
    (h : ℕ) (cs : List Node) (p : ℕ)
    → Front (Full h) (Radix h) cs
    → p < length (flat cs)
    → (s : Slot cs p) × (s.before ≡ s.k * width h) × Radix h s.child
unfolding slot_here slot_later
Front-slot h [] p f lt = absurd f
Front-slot h (c ∷ []) p f lt =
    (slot_here c [] p (omega (arith, length-append {0} (node_list c) [])), omega arith, f)
Front-slot h (c ∷ d ∷ cs) p (full, f) lt = elim (Bool-cases (ltb p (size c))) [
  | inl here ↦ (slot_here c (d ∷ cs) p (ground arith), omega arith, Full-Radix h c full)
  | inr later ↦
      let past : size c ≤ p = ground arith in
      let rest =
        Front-slot h (d ∷ cs) (p - size c) f
          (omega (arith, past, lt, length-append {0} (node_list c) (flat (d ∷ cs)))) in
      (slot_later c (d ∷ cs) p past rest.0, omega (arith, rest.1, Full-size h c full), rest.2)
]

-- The slot of the place `p` by the sums of the sizes: the scan finds it from every slot `start` whose
-- sums before it cannot pass `p`, and the sum before it is the number of elements before it.
abbrev pub Scanned : ℕ → ℕ → ℕ → List Node → ℕ → ℕ → Type 0
Scanned acc start i cs index p =
    (s : Slot cs p) × (scan_table (drop start (sums acc cs)) (i + start) index ≡ done (i + s.k))
    × (read (acc ∷ sums acc cs) s.k ≡ done (acc + s.before))

no_start : (start w p : ℕ) → start * w ≤ p → p < w → start ≡ 0
no_start zero w p le lt = refl
no_start (suc s) w p le lt = absurd (omega arith)

start_pred : (start w p q : ℕ) → start * w ≤ p → q ≤ w → (start - 1) * w ≤ p - q
start_pred zero w p q le most = omega arith
start_pred (suc s) w p q le most = let back : suc s - 1 ≡ s = omega arith in rw back (omega arith)

-- An entry that is at most the index is skipped, when the scan has not started behind it.
scan-skip :
    (start i index x : ℕ) (xs : List ℕ)
    → leb x index ≡ true
    → scan_table (drop start (x ∷ xs)) (i + start) index
      ≡ scan_table (drop (start - 1) xs) (i + 1 + (start - 1)) index
unfolding scan_table
scan-skip zero i index x xs e = rw e (ap (λ n. scan_table xs n index) (omega arith))
scan-skip (suc s) i index x xs e =
    let back : suc s - 1 ≡ s = omega arith in
    rw back (ap (λ n. scan_table (drop s xs) n index) (omega arith))

pub scan-slot :
    (w : ℕ) (cs : List Node) (acc start i index p : ℕ)
    → All (λ c. size c ≤ w) cs
    → index ≡ acc + p
    → p < length (flat cs)
    → start * w ≤ p
    → Scanned acc start i cs index p
unfolding scan_table read slot_here slot_later
scan-slot w [] acc start i index p all e lt le = absurd (omega arith)
scan-slot w (c ∷ cs) acc start i index p (most, all) e lt le = elim (Bool-cases (ltb p (size c))) [
  | inl here ↦
      let first = no_start start w p le (ground arith) in
      let inside : leb (acc + size c) index ≡ false = ground arith in
      (slot_here c cs p (ground arith), rw (first, inside) refl, ap done (omega arith))
  | inr later ↦
      let past : size c ≤ p = ground arith in
      let split = length-append {0} (node_list c) (flat cs) in
      let rest =
        scan-slot w cs (acc + size c) (start - 1) (i + 1) index (p - size c) all (omega arith)
          (omega arith) (start_pred start w p (size c) le most) in
      let skip : leb (acc + size c) index ≡ true = ground arith in
      (
        slot_later c cs p past rest.0,
        scan-skip start i index (acc + size c) (sums (acc + size c) cs) skip
            ∙ rest.1
            ∙ ap done (omega arith),
        rest.2 ∙ ap done (omega arith),
      )
]

pub sized_pos-slot :
    (table : List ℕ) (h p k before inner : ℕ)
    → scan_table (drop (p / width h) table) (p / width h) p ≡ done k
    → read (0 ∷ table) k ≡ done before
    → p ≡ before + inner
    → p < 2 ^ 32
    → h ≤ 5
    → sized_pos table p (5 * suc h) ≡ done (k, inner)
unfolding sized_pos read
sized_pos-slot table h p zero before inner scan prior place small low =
    let fits : ltb (5 * suc h) 32 ≡ true = ground (arith, low) in
    let start : before ≡ 0 = sym (done-injective prior) in
    rw (fits, width-pow h, scan) (ap (λ n. done (0, n)) (omega arith))
sized_pos-slot table h p (suc k) before inner scan prior place small low =
    let fits : ltb (5 * suc h) 32 ≡ true = ground (arith, low) in
    let back : suc k - 1 ≡ k = omega arith in
    let later : (suc k == 0) ≡ false = ground arith in
    rw (fits, width-pow h, scan) (rw (later, back, prior) (ap (λ n. done (suc k, n)) (omega arith)))
