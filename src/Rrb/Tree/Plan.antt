-- ===== src/Rrb/Tree/Plan.antt =====
-- `create_concat_plan` of vm/src/std/owl_list.c: the sizes that it plans for the merged nodes.
pub mod Merge
pub mod Loop
pub mod Create
use owlang.Base.{
  ℕ, zero, suc, ◌+◌, ◌-◌, ◌*◌, ◌/◌, ◌%◌, ◌^◌, ◌≤◌, ◌<◌, ◌≡◌, refl, ap, sym, ◌∙◌, arith, List, [],
  ◌∷◌, ◌++◌, length, sum, All, min, take, replicate, set, append_assoc, append-nil, length-append,
  append_one, set-length_append, length-replicate, replicate_add, sum-append, ltb, leb, Bool-cases,
  inl, inr, true, false, ◌==◌, if◌then◌else◌,
}
use owlang.Base.Outcome.{Outcome, done, ◌>>=◌}
use owlang.Rrb.{Node, read, branching, sub32}
use owlang.Rrb.Push.{write}
use owlang.Rrb.Plan.{skip_full, redistribute, shuffle_up, plan_loop}

-- What a node may hold.
abbrev pub InRange : ℕ → Type 0
InRange n = (1 ≤ n) × (n ≤ 32)

pub read-append :
    (pre : List ℕ) (i x : ℕ) (xs : List ℕ) → i ≡ length pre → read (pre ++ x ∷ xs) i ≡ done x
unfolding read
read-append [] i x xs e = rw e refl
read-append (p ∷ pre) zero x xs e = absurd (omega (arith, e))
read-append (p ∷ pre) (suc i) x xs e = read-append pre i x xs (omega (arith, e))

-- The entry behind the one at the end of `pre`.
pub read-append_next :
    (pre : List ℕ) (i x y : ℕ) (xs : List ℕ)
    → i ≡ length pre
    → read (pre ++ x ∷ y ∷ xs) (i + 1) ≡ done y
read-append_next pre i x y xs e =
    ap (λ zs. read zs (i + 1)) (sym (append_one pre x (y ∷ xs)))
    ∙ read-append (pre ++ x ∷ []) (i + 1) y xs (omega (arith, e, length-append pre (x ∷ [])))

pub write-append :
    (pre : List ℕ) (i x v : ℕ) (xs : List ℕ)
    → i ≡ length pre
    → write (pre ++ x ∷ xs) i v ≡ done (pre ++ v ∷ xs)
unfolding write
write-append pre i x v xs e =
    let inside : ltb i (length (pre ++ x ∷ xs)) ≡ true =
      ground (arith, length-append pre (x ∷ xs)) in
    rw inside (ap done (ap (λ n. set (pre ++ x ∷ xs) n v) e ∙ set-length_append pre x v xs))

skip_full-stop :
    (fuel : ℕ) (counts : List ℕ) (i r : ℕ)
    → read counts i ≡ done r
    → ltb 31 r ≡ false
    → skip_full (suc fuel) counts i ≡ done i
unfolding skip_full
skip_full-stop fuel counts i r e short = rw e (ground arith)

pub skip_full-replicate :
    (fuel k r i : ℕ) (pre xs : List ℕ)
    → k < fuel
    → r ≤ 31
    → i ≡ length pre
    → skip_full fuel (pre ++ (replicate k 32 ++ r ∷ xs)) i ≡ done (i + k)
unfolding skip_full
skip_full-replicate (suc fuel) zero r i pre xs lt small e =
    skip_full-stop fuel (pre ++ r ∷ xs) i r (read-append pre i r xs e) (ground arith)
    ∙ ap done (omega arith)
skip_full-replicate (suc fuel) (suc k) r i pre xs lt small e =
    let tail = replicate k 32 ++ r ∷ xs in
    let rest =
      skip_full-replicate fuel k r (i + 1) (pre ++ 32 ∷ []) xs (omega (arith, lt)) small
        (omega (arith, e, length-append pre (32 ∷ []))) in
    rw (read-append pre i 32 tail e) (
      ap (λ zs. skip_full fuel zs (i + 1)) (sym (append_one pre 32 tail))
      ∙ rest
      ∙ ap done (omega arith))
skip_full-replicate zero k r i pre xs lt small e = absurd (omega (arith, lt))

-- Moving the entries `ns` one up writes over `stale`; behind them an entry is left over.
pub shuffle_up-append :
    (ns : List ℕ) (i stale : ℕ) (pre junk : List ℕ)
    → i ≡ length pre
    → (junk' : List ℕ) × (shuffle_up (length ns) i (pre ++ stale ∷ (ns ++ junk))
        ≡ done (pre ++ (ns ++ junk')))
unfolding shuffle_up
shuffle_up-append [] i stale pre junk e = (stale ∷ junk, refl)
shuffle_up-append (n ∷ ns) i stale pre junk e =
    let (junk', rest) =
      shuffle_up-append ns (i + 1) n (pre ++ n ∷ []) junk
        (omega (arith, e, length-append pre (n ∷ []))) in
    (
      junk',
      rw
          (
            read-append_next pre i stale n (ns ++ junk) e,
            write-append pre i stale n (n ∷ (ns ++ junk)) e,
          )
          (ap (shuffle_up (length ns) (i + 1)) (sym (append_one pre n (n ∷ (ns ++ junk))))
            ∙ rest
            ∙ ap done (append_one pre n (ns ++ junk'))),
    )
