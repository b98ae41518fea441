-- ===== src/Gc/Refs.antt =====
-- `copy_refs` and `copy_list_node` of vm/src/alloc.c: the references of an object are replaced by
-- those of the objects' new places.
use owlang.Base.{
  ℕ, zero, suc, ◌≡◌, ◌≢◌, inl, inr, refl, arith, ◌==◌, false, List, [], ◌∷◌, map, All, All-append,
  All-split,
}
use owlang.World.{World}
use owlang.Rrb.{Node, Nodes}
use owlang.Rrb.View.{node_list, nodes_list, rrb_list}
use owlang.Term.{owl_extract_ptr}
use owlang.Vm.{Vm, Op, Object}
use owlang.Gc.{copy_all, copy_set, copy_list_node, copy_list_nodes, copy_refs}
use owlang.Gc.Relocate.{
  map_node, map_nodes, refs, map_refs, moved, IsSettled, moved-agree, map_node-agree,
}
use owlang.Gc.Space.{Snapshot, IsGood, IsCopying, Copies, goes_here, Copies-bind}

module _ {w : World} (vm₀ : Vm w) (s : Snapshot) where
  -- The terms have been copied, and `f` of them is what came out.
  abbrev pub Placed : {A : Type 0} → List ℕ → ((ℕ → ℕ) → A) → A → Vm w → Type 0
  Placed xs f a vm = (a ≡ f (moved vm₀.gc vm.forwards)) × All (IsSettled vm₀.gc vm.forwards) xs

  -- What has been moved stays where it is.
  abbrev pub Stays : (ℕ → ℕ) → (ℕ → ℕ) → Type 0
  Stays forwards forwards' = (p : ℕ) → s.live p → forwards p ≢ 0 → forwards' p ≡ forwards p

  pub IsSettled-later :
      (m : ℕ) (φ ψ : ℕ → ℕ) (x : ℕ)
      → Stays φ ψ
      → IsGood vm₀.gc s m x
      → IsSettled vm₀.gc φ x
      → IsSettled vm₀.gc ψ x × (moved vm₀.gc ψ x ≡ moved vm₀.gc φ x)
  IsSettled-later m φ ψ x e (inl outside) settled =
      (inl outside, moved-agree vm₀.gc _ _ x settled (λ _ inside. absurd (cc)))
  IsSettled-later m φ ψ x e (inr good) (inl outside) =
      (inl outside, moved-agree vm₀.gc _ _ x (inl outside) (λ _ inside. absurd (cc)))
  IsSettled-later m φ ψ x e (inr good) (inr marked) =
      let same = e (owl_extract_ptr x) good.0 marked in
      (inr (λ z. marked (omega arith)), moved-agree vm₀.gc _ _ x (inr marked) (λ _ _. same))

  pub All-later :
      (m : ℕ) (φ ψ : ℕ → ℕ) (xs : List ℕ)
      → Stays φ ψ
      → All (IsGood vm₀.gc s m) xs
      → All (IsSettled vm₀.gc φ) xs
      → All (IsSettled vm₀.gc ψ) xs × All (λ x. moved vm₀.gc ψ x ≡ moved vm₀.gc φ x) xs
  All-later m φ ψ [] e good settled = (tt, tt)
  All-later m φ ψ (x ∷ xs) e (g, good) (t, settled) =
      let (first, same) = IsSettled-later m φ ψ x e g t in
      let (rest, agree) = All-later m φ ψ xs e good settled in ((first, rest), (same, agree))

  module _ (n : ℕ) (copy : ℕ → Op w ℕ)
      (copies : (x : ℕ) (vm : Vm w)
        → IsGood vm₀.gc s n x
        → IsCopying vm₀ s vm
        → Copies vm₀ s n vm (Placed (x ∷ []) (λ f. f x)) (copy x vm)) where
    copy_all-Copies :
        (xs : List ℕ) (vm : Vm w)
        → All (IsGood vm₀.gc s n) xs
        → IsCopying vm₀ s vm
        → Copies vm₀ s n vm (Placed xs (λ f. map f xs)) (copy_all copy xs vm)
    unfolding copy_all
    copy_all-Copies [] vm good c = goes_here vm₀ s c (refl, tt)
    copy_all-Copies (x ∷ xs) vm (g, good) c =
        Copies-bind vm₀ s (copies x vm g c) λ x' vm₁ c₁ e₁ (is, settled).
          Copies-bind vm₀ s (copy_all-Copies xs vm₁ good c₁) λ xs' vm₂ c₂ e₂ (are, rest).
            let ((kept, _), (same, _)) = All-later n _ _ (x ∷ []) e₂.stays (g, tt) settled in
            goes_here vm₀ s c₂ (cc, (kept, rest))

    mutual
      unfolding copy_list_node copy_list_nodes map_node map_nodes node_list nodes_list

      copy_list_node-Copies :
          (node : Node) (vm : Vm w)
          → All (IsGood vm₀.gc s n) (node_list node)
          → IsCopying vm₀ s vm
          → Copies vm₀ s n vm
              (Placed (node_list node) (λ f. map_node f node))
              (copy_list_node copy node vm)
      copy_list_node-Copies Node.null vm good c = goes_here vm₀ s c (refl, tt)
      copy_list_node-Copies (Node.leaf xs) vm good c =
          Copies-bind vm₀ s (copy_all-Copies xs vm good c)
            λ xs' vm₁ c₁ e₁ (are, settled). goes_here vm₀ s c₁ (cc, settled)
      copy_list_node-Copies (Node.internal table cs) vm good c =
          Copies-bind vm₀ s (copy_list_nodes-Copies cs vm good c)
            λ cs' vm₁ c₁ e₁ (are, settled). goes_here vm₀ s c₁ (cc, settled)

      copy_list_nodes-Copies :
          (nodes : Nodes) (vm : Vm w)
          → All (IsGood vm₀.gc s n) (nodes_list nodes)
          → IsCopying vm₀ s vm
          → Copies vm₀ s n vm
              (Placed (nodes_list nodes) (λ f. map_nodes f nodes))
              (copy_list_nodes copy nodes vm)
      copy_list_nodes-Copies Nodes.nil vm good c = goes_here vm₀ s c (refl, tt)
      copy_list_nodes-Copies (Nodes.cons node nodes) vm good c =
          let (g, gs) = All-split (IsGood vm₀.gc s n) (node_list node) (nodes_list nodes) good in
          Copies-bind vm₀ s (copy_list_node-Copies node vm g c) λ node' vm₁ c₁ e₁ (is, settled).
            Copies-bind vm₀ s (copy_list_nodes-Copies nodes vm₁ gs c₁)
              λ nodes' vm₂ c₂ e₂ (are, rest).
                let (kept, agree) = All-later n _ _ (node_list node) e₂.stays g settled in
                let same = map_node-agree _ _ node agree in
                goes_here vm₀ s c₂ (cc, All-append _ (node_list node) (nodes_list nodes) kept rest)

    module _ (no_null : s.live 0 → ⊥) where
      copy_set-Copies :
          (x : ℕ) (vm : Vm w)
          → IsGood vm₀.gc s n x
          → IsCopying vm₀ s vm
          → Copies vm₀ s n vm (Placed (x ∷ []) (λ f. f x)) (copy_set copy x vm)
      unfolding copy_set moved owl_extract_ptr
      copy_set-Copies zero vm (inl outside) c =
          goes_here vm₀ s c (rw outside refl, (inl outside, tt))
      copy_set-Copies zero vm (inr good) c = absurd (no_null good.0)
      copy_set-Copies (suc x) vm good c =
          let set : (suc x == 0) ≡ false = ground arith in rw set (copies (suc x) vm good c)

module _ {w : World} (vm₀ : Vm w) (s : Snapshot) (no_null : s.live 0 → ⊥) (n : ℕ)
    (copy : ℕ → Op w ℕ)
    (copies : (x : ℕ) (vm : Vm w)
      → IsGood vm₀.gc s n x
      → IsCopying vm₀ s vm
      → Copies vm₀ s n vm (Placed vm₀ s (x ∷ []) (λ f. f x)) (copy x vm)) where
  pub copy_refs-Copies :
      (object : Object) (vm : Vm w)
      → All (IsGood vm₀.gc s n) (refs object)
      → IsCopying vm₀ s vm
      → Copies vm₀ s n vm
          (Placed vm₀ s (refs object) (λ f. map_refs f object))
          (copy_refs copy object vm)
  unfolding copy_refs refs map_refs rrb_list
  copy_refs-Copies (Object.tuple xs) vm good c =
      Copies-bind vm₀ s (copy_all-Copies vm₀ s n copy copies xs vm good c)
        λ xs' vm₁ c₁ e₁ p. goes_here vm₀ s c₁ (cc (p.0), p.1)
  copy_refs-Copies (Object.string bytes) vm good c = goes_here vm₀ s c (refl, tt)
  copy_refs-Copies (Object.unterminated bytes) vm good c = goes_here vm₀ s c (refl, tt)
  copy_refs-Copies (Object.function f) vm good c =
      Copies-bind vm₀ s
        (copy_all-Copies vm₀ s n (copy_set copy) (copy_set-Copies vm₀ s n copy copies no_null)
          f.upvalues vm good c)
        λ upvalues' vm₁ c₁ e₁ p. goes_here vm₀ s c₁ (cc (p.0), p.1)
  copy_refs-Copies (Object.list r) vm good c =
      let (g, gs) = All-split (IsGood vm₀.gc s n) (node_list r.root) r.tail good in
      Copies-bind vm₀ s (copy_list_node-Copies vm₀ s n copy copies r.root vm g c)
        λ root' vm₁ c₁ e₁ (is, settled).
          Copies-bind vm₀ s (copy_all-Copies vm₀ s n copy copies r.tail vm₁ gs c₁)
            λ tail' vm₂ c₂ e₂ (are, rest).
              let (kept, agree) = All-later vm₀ s n _ _ (node_list r.root) e₂.stays g settled in
              let same = map_node-agree _ _ r.root agree in
              goes_here vm₀ s c₂ (cc, All-append _ (node_list r.root) r.tail kept rest)
