-- ===== src/Domains/Store/Serial.antt =====
-- Committed drafts take effect one after the other, whatever other writers do between.
use aniparse.Prelude.StdMap.{StdMap}
use aniparse.Prelude.{
  ℕ, ◌+◌, ◌≤◌, ◌<◌, true, false, List, [], ◌∷◌, ◌++◌, ◌≡◌, refl, ap, sym, ◌∙◌, ◌≢◌, ◌⊎◌, inl, inr,
  arith, ◌==◌, ==_iff, Bytes, Bool-cases, Option-cases, get_elem?, All, All-append, All-set,
  All-get,
}
use aniparse.Domains.Store.{
  DomainOverrides, Store, Edit, CommitResult, committed, stale, already_committed, make_store,
  make_snapshot, commit, publish, begin_edit, add, remove, set_volatile_domains,
}
use aniparse.Domains.Store.Routes.{IsCoherent}
use aniparse.Domains.Store.Schedule.{
  Op, add_op, remove_op, overrides_op, Action, begin, edit, commit_edit, Draft, World, apply_op,
  apply_ops, on_draft, record_batch, commit_draft, act, run, initial, transact, serial,
}

module _ {V : Type 0} where
  apply_op_keeps :
      (o : Op V) (e : Edit V)
      → ((apply_op o e).base ≡ e.base) × ((apply_op o e).attached ≡ e.attached)
  unfolding apply_op add remove set_volatile_domains
  apply_op_keeps (add_op i v) e = ground arith
  apply_op_keeps (remove_op i) e = ground arith
  apply_op_keeps (overrides_op vol) e = (refl, refl)

  apply_ops_keeps :
      (os : List (Op V)) (e : Edit V)
      → ((apply_ops os e).base ≡ e.base) × ((apply_ops os e).attached ≡ e.attached)
  unfolding apply_ops
  apply_ops_keeps [] e = (refl, refl)
  apply_ops_keeps (o ∷ os) e =
      let (b, a) = apply_ops_keeps os (apply_op o e) in
      let (b', a') = apply_op_keeps o e in (b ∙ b', a ∙ a')

  apply_ops-concat :
      (os : List (Op V)) (o : Op V) (e : Edit V)
      → apply_ops (os ++ o ∷ []) e ≡ apply_op o (apply_ops os e)
  unfolding apply_ops
  apply_ops-concat [] o e = refl
  apply_ops-concat (p ∷ os) o e = apply_ops-concat os o (apply_op p e)

  -- A draft whose base is still live holds its operations applied to the live snapshot.
  pub record IsDraft (s : Store V) (d : Draft V) : Type 0 where
    pub not_ahead : d.edit.base ≤ s.live
    pub current :
        d.edit.attached ≡ true → d.edit.base ≡ s.live → d.edit ≡ apply_ops d.ops (begin_edit s)

  begin-IsDraft : (s : Store V) → IsDraft s (record { edit = begin_edit s; ops = [] })
  unfolding begin_edit apply_ops
  begin-IsDraft s = record { not_ahead = omega arith; current = λ a b. refl }

  op-IsDraft :
      (s : Store V) (d : Draft V) (o : Op V)
      → IsDraft s d
      → IsDraft s (record { edit = apply_op o d.edit; ops = d.ops ++ o ∷ [] })
  op-IsDraft s d o h =
      let (b, a) = apply_op_keeps o d.edit in
      record {
        not_ahead = rw b h.not_ahead;
        current = λ live at.
            ap (apply_op o) (h.current (sym a ∙ live) (sym b ∙ at))
            ∙ sym (apply_ops-concat d.ops o (begin_edit s));
      }

  -- Once the store has moved on, nothing is left to say of an older draft.
  later-IsDraft : (s t : Store V) (d : Draft V) → s.live < t.live → IsDraft s d → IsDraft t d
  later-IsDraft s t d lt h = record {
    not_ahead = omega (arith, h.not_ahead);
    current = λ live at. absurd (omega (arith, h.not_ahead));
  }

module _ {V : Type 0} (emitter : V → List Bytes) where
  pub record IsSerial (w : World V) : Type 0 where
    pub in_order : w.store ≡ serial emitter w.batches (make_store emitter)
    pub coherent : IsCoherent emitter w.store
    pub drafts : All (IsDraft w.store) w.drafts

  serial-concat :
      (bs : List (List (Op V))) (b : List (Op V)) (s : Store V)
      → serial emitter (bs ++ b ∷ []) s ≡ transact emitter b (serial emitter bs s)
  unfolding serial
  serial-concat [] b s = refl
  serial-concat (c ∷ bs) b s = serial-concat bs b (transact emitter c s)

  -- A commit succeeds exactly from the live snapshot, and otherwise changes nothing of the store.
  Succeeds : Edit V → Store V → Type 0
  Succeeds e s =
      (e.attached ≡ true)
      × (s.live ≡ e.base)
      × (commit emitter e s ≡ (
        committed,
        record { attached = false; base = e.base; entries = []; volatile_domains = [] },
        record { live = s.live + 1; snapshot = make_snapshot emitter e.entries e.volatile_domains },
      ))

  record Fails (e : Edit V) (s : Store V) : Type 0 where
    refused : (commit emitter e s).0 ≢ committed
    same_store : (commit emitter e s).2 ≡ s
    same_base : (commit emitter e s).1.base ≡ e.base
    dead : (commit emitter e s).1.attached ≡ true → (commit emitter e s).1.base ≡ s.live → ⊥

  commit-Succeeds : (e : Edit V) (s : Store V) → e.attached ≡ true → s.live ≡ e.base → Succeeds e s
  unfolding Succeeds commit publish
  commit-Succeeds e s attached live = (attached, live, ground arith)

  commit-Fails : (e : Edit V) (s : Store V) → (e.attached ≡ false) ⊎ (s.live ≢ e.base) → Fails e s
  unfolding commit publish
  commit-Fails e s (inl detached) = record {
    refused = ground arith;
    same_store = ground arith;
    same_base = ground arith;
    dead = λ a b. ground arith;
  }
  commit-Fails e s (inr moved) = record {
    refused = ground arith;
    same_store = ground arith;
    same_base = ground arith;
    dead = λ a b. ground arith;
  }

  commit-cases : (e : Edit V) (s : Store V) → Succeeds e s ⊎ Fails e s
  commit-cases e s = elim (Bool-cases e.attached) [
    | inl attached ↦ elim (Bool-cases (s.live == e.base)) [
      | inl live ↦ inl (commit-Succeeds e s attached ((==_iff _ _).0 live))
      | inr moved ↦ inr (commit-Fails e s (inr (λ same. cc (moved, (==_iff s.live e.base).1 same))))
    ]
    | inr detached ↦ inr (commit-Fails e s (inl detached))
  ]

  All-later :
      (s t : Store V) (ds : List (Draft V))
      → s.live < t.live
      → All (IsDraft s) ds
      → All (IsDraft t) ds
  All-later s t [] lt h = tt
  All-later s t (d ∷ ds) lt h = (later-IsDraft s t d lt h.0, All-later s t ds lt h.1)

  record_batch_refused :
      (r : CommitResult) (ops : List (Op V)) (bs : List (List (Op V)))
      → r ≢ committed
      → record_batch r ops bs ≡ bs
  unfolding record_batch
  record_batch_refused committed ops bs h = absurd (h refl)
  record_batch_refused stale ops bs h = refl
  record_batch_refused already_committed ops bs h = refl

  made-IsCoherent :
      (n : ℕ) (es : StdMap V) (vol : DomainOverrides)
      → IsCoherent emitter (record { live = n; snapshot = make_snapshot emitter es vol })
  unfolding make_snapshot
  made-IsCoherent n es vol = refl

  done-IsSerial :
      (i : ℕ) (d : Draft V) (w : World V)
      → IsDraft w.store d
      → IsSerial w
      → Succeeds d.edit w.store
      → IsSerial (commit_draft emitter i d w)
  unfolding commit_draft Succeeds
  done-IsSerial i d w h inv ok =
      let (attached, live, done) = ok in
      let s : Store V = record {
        live = w.store.live + 1;
        snapshot = make_snapshot emitter d.edit.entries d.edit.volatile_domains;
      } in
      let result : (commit emitter d.edit w.store).0 ≡ committed = ap (λ x. x.0) done in
      let store : (commit emitter d.edit w.store).2 ≡ s = ap (λ x. x.2) done in
      let spent : (commit emitter d.edit w.store).1.attached ≡ false =
        ap (λ x. x.1.attached) done in
      let base : (commit emitter d.edit w.store).1.base ≡ d.edit.base = ap (λ x. x.1.base) done in
      record {
        in_order =
            ap (λ e. (commit emitter e w.store).2) (h.current attached (sym live))
            ∙ unfold transact in
              ap (transact emitter d.ops) inv.in_order
              ∙ sym (serial-concat w.batches d.ops (make_store emitter))
              ∙ unfold record_batch in
                ap (λ r. serial emitter (record_batch r d.ops w.batches) (make_store emitter))
                  (sym result);
        coherent =
            rw store (made-IsCoherent (w.store.live + 1) d.edit.entries d.edit.volatile_domains);
        drafts = rw store (
            All-set (IsDraft s) w.drafts i _ (All-later w.store s w.drafts (omega arith) inv.drafts)
              (record { not_ahead = omega (arith, h.not_ahead); current = λ a b. cc (spent, a) }));
      }

  commit_draft-IsSerial :
      (i : ℕ) (d : Draft V) (w : World V)
      → IsDraft w.store d
      → IsSerial w
      → IsSerial (commit_draft emitter i d w)
  commit_draft-IsSerial i d w h inv = elim (commit-cases d.edit w.store) [
    | inl ok ↦ done-IsSerial i d w h inv ok
    | inr fails ↦
        unfold commit_draft in
        record {
          in_order =
              rw (record_batch_refused _ d.ops w.batches fails.refused)
                (fails.same_store ∙ inv.in_order);
          coherent = rw fails.same_store inv.coherent;
          drafts = rw fails.same_store (
              All-set (IsDraft w.store) w.drafts i _ inv.drafts (record {
                not_ahead = omega (arith, fails.same_base, h.not_ahead);
                current = λ a b. absurd (fails.dead a b);
              }));
        }
  ]

  act-IsSerial : (a : Action V) (w : World V) → IsSerial w → IsSerial (act emitter a w)
  unfolding act on_draft
  act-IsSerial begin w inv = record {
    in_order = inv.in_order;
    coherent = inv.coherent;
    drafts = All-append (IsDraft w.store) w.drafts _ inv.drafts (begin-IsDraft w.store, tt);
  }
  act-IsSerial (edit i o) w inv = elim (Option-cases (get_elem? w.drafts i)) [
    | inl absent ↦ rw (absent, on_draft) inv
    | inr (d, present) ↦
        rw (present, on_draft)
          (record {
            in_order = inv.in_order;
            coherent = inv.coherent;
            drafts =
                All-set (IsDraft w.store) w.drafts i _ inv.drafts (
                  op-IsDraft w.store d o (All-get (IsDraft w.store) w.drafts i inv.drafts present));
          })
  ]
  act-IsSerial (commit_edit i) w inv = elim (Option-cases (get_elem? w.drafts i)) [
    | inl absent ↦ rw (absent, act) inv
    | inr (d, present) ↦
        rw (present, act)
          (commit_draft-IsSerial i d w (All-get (IsDraft w.store) w.drafts i inv.drafts present)
            inv)
  ]

  run-IsSerial : (as' : List (Action V)) (w : World V) → IsSerial w → IsSerial (run emitter as' w)
  unfolding run
  run-IsSerial [] w inv = inv
  run-IsSerial (a ∷ as') w inv = run-IsSerial as' (act emitter a w) (act-IsSerial a w inv)

  initial-IsSerial : IsSerial (initial emitter)
  unfolding initial make_store serial
  initial-IsSerial = record { in_order = refl; coherent = made-IsCoherent 0 [] []; drafts = tt }

  -- After any interleaving of the steps of any number of writers on a new store, the store is the one
  -- that the batches of the commits that succeeded make, applied one after the other in the order of
  -- their commits, each begun only when the one before it is committed.
  pub store_serializable :
      (as' : List (Action V))
      → (run emitter as' (initial emitter)).store
        ≡ serial emitter (run emitter as' (initial emitter)).batches (make_store emitter)
  store_serializable as' = (run-IsSerial as' (initial emitter) initial-IsSerial).in_order

  -- After any interleaving of the steps of any number of writers on a new store, the snapshot's
  -- scanner is the one that its entries and overrides make.
  pub store-IsCoherent :
      (as' : List (Action V)) → IsCoherent emitter (run emitter as' (initial emitter)).store
  store-IsCoherent as' = (run-IsSerial as' (initial emitter) initial-IsSerial).coherent
