-- ===== src/Scheduler/Plans/Wired.antt =====
-- What holds of the plans whenever an edge may be added.
use req_pack_core.Prelude.{
  ℕ, ◌+◌, ◌<◌, false, ◌&&◌, ◌==◌, if◌then◌else◌, nat_eq, bool_eq, nat_beq_iff, text_eq, List, [],
  ◌∷◌, ◌++◌, ◌≡◌, refl, sym, ap, ◌∙◌, arith, Bool-cases, inl, inr, All, All-append, beq_refl,
}
use req_pack_core.Scheduler.Family.{
  update, count, total, total_more, total_same, total_of_zero, count-append,
}
use req_pack_core.Scheduler.Plans.{TaskGroupPlans, no_edges, add_schedule_edge}

-- The pending dependencies count the mentions as a successor; a group is a successor of another
-- exactly if the edge has been seen, and then once; no group is its own successor.
pub record IsWired (size : ℕ) (plans : TaskGroupPlans) : Type 0 where
  pub counted :
      (j : ℕ) → plans.pending_dependencies j ≡ total size (λ p. count j (plans.successors p))
  pub in_range : (p : ℕ) → All (λ i. i < size) (plans.successors p)
  pub once : (p j : ℕ) → count j (plans.successors p) ≡ (if plans.seen_edges p j then 1 else 0)
  pub loopless : (p : ℕ) → plans.seen_edges p p ≡ false

pub no_edges-IsWired : (size : ℕ) → IsWired size no_edges
unfolding count
no_edges-IsWired size = record {
  counted = λ j. sym (total_of_zero size);
  in_range = λ p. tt;
  once = λ p j. refl;
  loopless = λ p. refl;
}

module _ (size source target : ℕ) (plans : TaskGroupPlans) (inv : IsWired size plans) where
  -- The successors after an edge has been added.
  abbrev more_successors : ℕ → List ℕ
  more_successors = update plans.successors source (plans.successors source ++ (target ∷ []))

  more-count :
      (p j : ℕ)
      → count j (more_successors p)
        ≡ count j (plans.successors p) + (if source == p && target == j then 1 else 0)
  more-count p j = elim (Bool-cases (source == p)) [
    | inl same ↦
        let e = (nat_beq_iff source p).0 same in
        rw same (
          count-append j (plans.successors source) target
          ∙ ap (λ q. count j (plans.successors q) + (if target == j then 1 else 0)) e)
    | inr other ↦ rw other (omega arith)
  ]

  more-total :
      (j : ℕ)
      → source < size
      → total size (λ p. count j (more_successors p))
        ≡ total size (λ p. count j (plans.successors p)) + (if target == j then 1 else 0)
  more-total j h = elim (Bool-cases (target == j)) [
    | inl same ↦ rw same (
        total_more size (λ p. count j (plans.successors p)) (λ p. count j (more_successors p))
          source (λ q other. let c = more-count q j in ground arith)
          (let c = more-count source j in let r = beq_refl source in ground arith) h)
    | inr other ↦ rw other (
        total_same size (λ p. count j (plans.successors p)) (λ p. count j (more_successors p))
          (λ q. let c = more-count q j in ground arith)
        ∙ omega arith)
  ]

  more-in_range : (p : ℕ) → target < size → All (λ i. i < size) (more_successors p)
  more-in_range p h = elim (Bool-cases (source == p)) [
    | inl same ↦
        rw same (All-append _ (plans.successors source) (target ∷ []) (inv.in_range source) (h, tt))
    | inr other ↦ rw other (inv.in_range p)
  ]

  pub add_schedule_edge-IsWired :
      source < size → target < size → IsWired size (add_schedule_edge source target plans)
  unfolding add_schedule_edge
  add_schedule_edge-IsWired hs ht = elim (Bool-cases (source == target)) [
    | inl loop ↦ rw loop inv
    | inr apart ↦ elim (Bool-cases (plans.seen_edges source target)) [
      | inl seen ↦ rw (apart, seen) inv
      | inr fresh ↦
          rw (apart, fresh)
            (record {
              counted = λ j.
                  let c = inv.counted j in
                  let t = more-total j hs in
                  elim (Bool-cases (target == j)) [
                    | inl same ↦
                        let e = (nat_beq_iff target j).0 same in
                        rw same (omega (arith, ap plans.pending_dependencies e, c, rw same at t))
                    | inr other ↦ rw other (omega (arith, c, rw other at t))
                  ];
              in_range = λ p. more-in_range p ht;
              once = λ p j.
                  let o = inv.once p j in
                  let c = more-count p j in
                  elim (Bool-cases (source == p && target == j)) [
                    | inl both ↦
                        let es : source ≡ p = (nat_beq_iff source p).0 (ground arith) in
                        let et : target ≡ j = (nat_beq_iff target j).0 (ground arith) in
                        let unseen : plans.seen_edges p j ≡ false = rw (sym es, sym et) fresh in
                        ground arith
                    | inr other ↦ ground arith
                  ];
              loopless = λ p.
                  let o = inv.loopless p in
                  elim (Bool-cases (source == p)) [
                    | inl same ↦
                        let es : source ≡ p = (nat_beq_iff source p).0 same in
                        let d : (p == target) ≡ false = rw (sym es) apart in ground arith
                    | inr other ↦ ground arith
                  ];
            })
    ]
  ]
