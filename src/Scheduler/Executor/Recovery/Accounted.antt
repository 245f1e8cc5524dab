-- ===== src/Scheduler/Executor/Recovery/Accounted.antt =====
-- No item of an interrupted run is lost.
use req_pack_core.Prelude.{
  true_ne_false, sym, beq_refl, bool_eq, text_eq, ◌||◌, true, false, Bool, ℕ, not, if◌then◌else◌,
  Text, codes, List, [], ◌∷◌, ◌++◌, keep_if, any_of, ◌≡◌, refl, ap, subst, ◌∙◌, ◌⊎◌, inl, inr,
  Bool-cases, if_cases,
}
use req_pack_core.Types.{Package, action_eq}
use req_pack_core.State.Records.{TransactionItemRecord, ActionCodes}
use req_pack_core.State.Store.{Lmdb, IsStore}
use req_pack_core.State.Database.{TransactionDatabase}
use req_pack_core.State.Database.Changes.{update_item_status}
use req_pack_core.State.Database.Changes.Update.{MarkedAll}
use req_pack_core.State.Database.Changes.Lasting.{
  update_item_status-Marked, update_item_status-Marked_kept,
}
use req_pack_core.Scheduler.Groups.{packages_of}
use req_pack_core.Scheduler.Executor.{PluginHost, same_package}
use req_pack_core.Scheduler.Executor.Recovery.{
  settle_items, settle_missing, settle_system, keep_host,
}

or_true : (b : Bool) → (b || true) ≡ true
or_true true = refl
or_true false = refl

abbrev pub Listed : {A : Type 0} → A → List A → Type 0
Listed item [] = ⊥
Listed item (first ∷ rest) = (first ≡ item) ⊎ Listed item rest

pub Listed-append_left :
    {A : Type 0} (item : A) (xs ys : List A) → Listed item xs → Listed item (xs ++ ys)
Listed-append_left item [] ys h = elim h [ ]
Listed-append_left item (x ∷ xs) ys (inl e) = inl e
Listed-append_left item (x ∷ xs) ys (inr h) = inr (Listed-append_left item xs ys h)

pub Listed-append_right :
    {A : Type 0} (item : A) (xs ys : List A) → Listed item ys → Listed item (xs ++ ys)
Listed-append_right item [] ys h = h
Listed-append_right item (x ∷ xs) ys h = inr (Listed-append_right item xs ys h)

pub Listed-keep_if :
    {A : Type 0} (p : A → Bool) (item : A) (xs : List A)
    → p item ≡ true
    → Listed item xs
    → Listed item (keep_if p xs)
unfolding keep_if
Listed-keep_if p item [] picked h = elim h [ ]
Listed-keep_if p item (x ∷ xs) picked (inl e) = rw (ap p e ∙ picked) (inl e)
Listed-keep_if p item (x ∷ xs) picked (inr h) =
    if_cases (Listed item) (p x) (λ e. inr (Listed-keep_if p item xs picked h))
      (λ e. Listed-keep_if p item xs picked h)

pub Listed-any_of :
    {A : Type 0} (p : A → Bool) (item : A) (xs : List A)
    → p item ≡ true
    → Listed item xs
    → any_of p xs ≡ true
unfolding any_of
Listed-any_of p item [] picked l = elim l [ ]
Listed-any_of p item (x ∷ xs) picked (inl e) = rw (ap p e ∙ picked) refl
Listed-any_of p item (x ∷ xs) picked (inr l) = rw (Listed-any_of p item xs picked l) (or_true (p x))

Listed-packages_of :
    (item : TransactionItemRecord) (items : List TransactionItemRecord)
    → Listed item items
    → Listed item.pkg (packages_of items)
unfolding packages_of
Listed-packages_of item [] l = elim l [ ]
Listed-packages_of item (first ∷ rest) (inl e) = inl (ap (λ i. i.pkg) e)
Listed-packages_of item (first ∷ rest) (inr l) = inr (Listed-packages_of item rest l)

same_package_refl : (pkg : Package) → same_package pkg pkg ≡ true
unfolding same_package
same_package_refl pkg =
    rw
      (
        beq_refl pkg.action,
        beq_refl pkg.system,
        beq_refl pkg.name,
        beq_refl pkg.version,
        beq_refl pkg.source_path,
        beq_refl pkg.local_target,
      )
      refl

Listed-if :
    (b : Bool) (item first : TransactionItemRecord) (xs : List TransactionItemRecord)
    → Listed item xs
    → Listed item (if b then first ∷ xs else xs)
Listed-if true item first xs h = inr h
Listed-if false item first xs h = h

module _ {D : Type 0} (lmdb : Lmdb D) (store : IsStore lmdb) (actions : ActionCodes) (clock : ℕ → ℕ)
    (run_id : Text) where
  -- The packages are stored as done.
  abbrev pub Succeeded : List Package → D → Type 0
  Succeeded = MarkedAll lmdb store actions (codes "success") [] clock run_id

  module _ {S : Type 0} (host : PluginHost S) where
    -- Whatever the plugin of its system is asked, it reports the package of an item as missing.
    abbrev pub AlwaysMissing : TransactionItemRecord → Type 0
    AlwaysMissing item =
        (s : S) (asked : List Package)
        → Listed item.pkg asked
        → Listed item.pkg (host.get_missing_packages s item.pkg.system asked).0

    -- An item is still pending, or it is stored as done, and its plugin did not report it missing.
    abbrev pub Settled : TransactionItemRecord → List TransactionItemRecord → D → Type 0
    Settled item pending d =
        Listed item pending ⊎ (Succeeded (item.pkg ∷ []) d × (AlwaysMissing item → ⊥))

    pub Settled-more :
        (item : TransactionItemRecord) (xs ys : List TransactionItemRecord) (d d' : D)
        → (Listed item xs → Listed item ys)
        → (Succeeded (item.pkg ∷ []) d → Succeeded (item.pkg ∷ []) d')
        → Settled item xs d
        → Settled item ys d'
    Settled-more item xs ys d d' more kept (inl h) = inl (more h)
    Settled-more item xs ys d d' more kept (inr (h, found)) = inr (kept h, found)

    pub settle_items-Succeeded :
        (done missing : List Package) (items : List TransactionItemRecord)
        (t : TransactionDatabase D)
        → Succeeded done t.env
        → Succeeded done (settle_items host lmdb actions clock run_id missing items t).1.env
    unfolding settle_items
    settle_items-Succeeded done missing [] t h = h
    settle_items-Succeeded done missing (item ∷ rest) t h =
        settle_items-Succeeded done missing rest _ (
          if_cases (λ (y : TransactionDatabase D). Succeeded done y.env)
            (any_of (λ pkg. same_package pkg item.pkg) missing) (λ e. h)
            (λ e.
              update_item_status-Marked_kept lmdb store actions (codes "success") [] clock run_id
                done item.pkg t h))

    settle_first-Settled :
        (missing : List Package) (item : TransactionItemRecord) (rest : List TransactionItemRecord)
        (t : TransactionDatabase D)
        → (AlwaysMissing item → Listed item.pkg missing)
        → Settled item
            (settle_items host lmdb actions clock run_id missing (item ∷ rest) t).0
            (settle_items host lmdb actions clock run_id missing (item ∷ rest) t).1.env
    unfolding settle_items
    settle_first-Settled missing item rest t reported =
        let done = update_item_status lmdb actions clock run_id item.pkg (codes "success") [] t in
        elim (Bool-cases (any_of (λ pkg. same_package pkg item.pkg) missing)) [
          | inl gone ↦ rw gone (inl (inl refl))
          | inr there ↦ elim (Bool-cases done.0) [
            | inl ok ↦ rw there (
                inr (
                  settle_items-Succeeded (item.pkg ∷ []) missing rest done.1 (
                      update_item_status-Marked lmdb store actions (codes "success") [] clock run_id
                        item.pkg t ok),
                  λ always. true_ne_false (
                      sym (
                        Listed-any_of (λ pkg. same_package pkg item.pkg) item.pkg missing
                          (same_package_refl item.pkg) (reported always))
                      ∙ there),
                ))
            | inr bad ↦ rw (there, bad) (inl (inl refl))
          ]
        ]

    settle_items-Settled :
        (missing : List Package) (items : List TransactionItemRecord) (t : TransactionDatabase D)
        (item : TransactionItemRecord)
        → Listed item items
        → (AlwaysMissing item → Listed item.pkg missing)
        → Settled item
            (settle_items host lmdb actions clock run_id missing items t).0
            (settle_items host lmdb actions clock run_id missing items t).1.env
    unfolding settle_items
    settle_items-Settled missing [] t item l reported = elim l [ ]
    settle_items-Settled missing (first ∷ rest) t item (inl e) reported =
        subst
          (λ i.
            (AlwaysMissing i → Listed i.pkg missing)
            → Settled i (settle_items host lmdb actions clock run_id missing (first ∷ rest) t).0
                (settle_items host lmdb actions clock run_id missing (first ∷ rest) t).1.env)
          e (settle_first-Settled missing first rest t) reported
    settle_items-Settled missing (first ∷ rest) t item (inr l) reported =
        Settled-more item _ _ _ _
          (Listed-if
            (any_of (λ pkg. same_package pkg first.pkg) missing
              || not
                  (update_item_status lmdb actions clock run_id first.pkg (codes "success") [] t).0)
            item first _)
          (λ h. h) (settle_items-Settled missing rest _ item l reported)

    pub settle_system-Succeeded :
        (done : List Package) (system : Text) (items : List TransactionItemRecord)
        (t : TransactionDatabase D) (found : Bool × S)
        → Succeeded done t.env
        → Succeeded done (settle_system host lmdb actions clock run_id system items t found).1.1.env
    unfolding settle_system settle_missing keep_host
    settle_system-Succeeded done system items t (true, s) h =
        settle_items-Succeeded done (host.get_missing_packages s system (packages_of items)).0 items
          t h
    settle_system-Succeeded done system items t (false, s) h = h

    pub settle_system-Settled :
        (system : Text) (items : List TransactionItemRecord) (t : TransactionDatabase D)
        (found : Bool × S) (item : TransactionItemRecord)
        → Listed item items
        → system ≡ item.pkg.system
        → Settled item
            (settle_system host lmdb actions clock run_id system items t found).0
            (settle_system host lmdb actions clock run_id system items t found).1.1.env
    unfolding settle_system settle_missing keep_host
    settle_system-Settled system items t (true, s) item l e =
        let asked = packages_of items in
        settle_items-Settled (host.get_missing_packages s system asked).0 items t item l (λ always.
          subst (λ name. Listed item.pkg (host.get_missing_packages s name asked).0) (sym e)
            (always s asked (Listed-packages_of item items l)))
    settle_system-Settled system items t (false, s) item l e = inl l
