-- ===== src/Domains/Store/Schedule.antt =====
-- Any number of drafts over one store: the calls of the writers, in the order in which they take
-- effect. Each draft carries the operations made on it, and the world the batches that were
-- committed, so that a run can be compared with the batches run one after the other.
use aniparse.Prelude.{ℕ, List, [], ◌∷◌, ◌++◌, none, some, Bytes, get_elem?, set}
use aniparse.Domains.Store.{
  DomainOverrides, Store, Edit, CommitResult, committed, stale, already_committed, make_store,
  commit, begin_edit, add, remove, set_volatile_domains,
}

pub data Op (V : Type 0) : Type 0 where
  add_op : Bytes → V → Op V
  remove_op : Bytes → Op V
  overrides_op : DomainOverrides → Op V

pub data Action (V : Type 0) : Type 0 where
  begin : Action V
  edit : ℕ → Op V → Action V
  commit_edit : ℕ → Action V

pub record Draft (V : Type 0) : Type 0 where
  pub edit : Edit V
  pub ops : List (Op V)

pub record World (V : Type 0) : Type 0 where
  pub store : Store V
  pub drafts : List (Draft V)
  pub batches : List (List (Op V))

module _ {V : Type 0} where
  unfoldable pub apply_op : Op V → Edit V → Edit V
  apply_op (add_op identifier v) e = (add identifier v e).1
  apply_op (remove_op identifier) e = (remove identifier e).1
  apply_op (overrides_op vol) e = set_volatile_domains vol e

  unfoldable pub apply_ops : List (Op V) → Edit V → Edit V
  apply_ops [] e = e
  apply_ops (o ∷ os) e = apply_ops os (apply_op o e)

  -- A call on draft `i`; there is no such call when there is no such draft.
  unfoldable pub on_draft : ℕ → Op V → World V → World V
  on_draft i o w = elim (get_elem? w.drafts i) [
    | none ↦ w
    | some d ↦ record w {
      drafts = set w.drafts i (record { edit = apply_op o d.edit; ops = d.ops ++ o ∷ [] });
    }
  ]

  -- The batches after a commit with the result.
  unfoldable pub record_batch : CommitResult → List (Op V) → List (List (Op V)) → List (List (Op V))
  record_batch committed ops bs = bs ++ ops ∷ []
  record_batch stale ops bs = bs
  record_batch already_committed ops bs = bs

module _ {V : Type 0} (emitter : V → List Bytes) where
  unfoldable pub commit_draft : ℕ → Draft V → World V → World V
  commit_draft i d w =
      let (result, e, s) = commit emitter d.edit w.store in
      record w {
        store = s;
        drafts = set w.drafts i (record { edit = e; ops = [] });
        batches = record_batch result d.ops w.batches;
      }

  unfoldable pub act : Action V → World V → World V
  act begin w = record w {
    drafts = w.drafts ++ record { edit = begin_edit w.store; ops = [] } ∷ [];
  }
  act (edit i o) w = on_draft i o w
  act (commit_edit i) w = elim (get_elem? w.drafts i) [ none ↦ w | some d ↦ commit_draft i d w ]

  unfoldable pub run : List (Action V) → World V → World V
  run [] w = w
  run (a ∷ as') w = run as' (act a w)

  unfoldable pub initial : World V
  initial = record { store = make_store emitter; drafts = []; batches = [] }

  -- One batch on its own: begin, the operations, commit.
  unfoldable pub transact : List (Op V) → Store V → Store V
  transact ops s = (commit emitter (apply_ops ops (begin_edit s)) s).2

  -- The batches one after the other, on a new store.
  unfoldable pub serial : List (List (Op V)) → Store V → Store V
  serial [] s = s
  serial (b ∷ bs) s = serial bs (transact b s)
