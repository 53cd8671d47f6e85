-- ===== src/Runtime/Tools/Changes/Allowed.antt =====
-- Who may change models and datasources with the tools of tools.rs, and what a success has done.
use graphnight.Base.{
  ◌≡◌, refl, ap, ◌⊎◌, inl, inr, String, Bool, true, false, Bool-cases, ◌&&◌, Option, none, some,
  List, [], ◌∷◌, ok, err, if◌then◌else◌, if_true, if_false, eq_refl, ◌∙◌, Result-cases, is_ok,
}
use graphnight.Runtime.Tools.Changes.Steps.{
  UnlessFailed, failed, done, after-UnlessFailed, reported-ok, reported-err, ok_or-err,
  IsUnread-orphans, ok_or-ok, orphans-IsUnread,
}
use graphnight.Runtime.Tools.Changes.Outcomes.{
  IsUnread, HasDone, Failed, no_fields, bad_input, not_created, not_read, not_found, bad_changes,
  not_updated, not_deleted, absent, datasource_not_created, datasource_not_read,
  datasource_not_found, datasource_not_updated, models_not_listed, in_use, datasource_not_deleted,
  datasource_absent,
}
use graphnight.Core.Models.{Value, Model}
use graphnight.Sql.Generator
use graphnight.Sql.Generator.Registry.{model-register_model}
use graphnight.Runtime.Context.{CallContext, require_admin}
use graphnight.Runtime.Governance.Registration.{register_model, unregister_model}
use graphnight.Runtime.Tools.Inputs.{
  CreateModelInput, UpdateModelInput, UpdateDatasourceInput, new_model,
}
use graphnight.Runtime.Tools.Changes.{
  Change, create_model, update_model, delete_model, create_datasource, update_datasource,
  delete_datasource, Backend, Catalogue, Step, pure, is_empty, orphans, admin_error, registered,
  unregistered, unused, named, no_model, no_datasource, change_as_admin, change, stored,
}

is_empty-both :
    {A C : Type 0} (xs : List A) (ys : List C)
    → (is_empty xs && is_empty ys) ≡ true
    → (xs ≡ []) × (ys ≡ [])
unfolding is_empty
is_empty-both [] [] h = (refl, refl)
is_empty-both [] (y ∷ ys) h = cc
is_empty-both (x ∷ xs) ys h = cc

abbrev some_model : Model
some_model = record {
  name = "";
  datasource = "";
  description = none;
  measures = [];
  dimensions = [];
  time_dimensions = [];
  joins = [];
  sql = none;
  meta = [];
}

module _ {B : Type 0} (backend : Backend B) (denied : String) where
  registered-storage :
      (ctx : CallContext) (m : Model) (v : Value) (s : Catalogue B)
      → s.storage ≡ (registered backend denied ctx m v s).1.storage
  unfolding registered
  registered-storage ctx m v s = elim (Result-cases (register_model ctx m s.generator)) [
    | inl (g, e) ↦ rw (registered, e) refl
    | inr (x, e) ↦ rw (registered, e) refl
  ]

  unregistered-storage :
      (ctx : CallContext) (name : String) (v : Value) (s : Catalogue B)
      → s.storage ≡ (unregistered backend denied ctx name v s).1.storage
  unfolding unregistered
  unregistered-storage ctx name v s = elim (Result-cases (unregister_model ctx name s.generator)) [
    | inl (g, e) ↦ rw (unregistered, e) refl
    | inr (x, e) ↦ rw (unregistered, e) refl
  ]

  registered-found :
      (ctx : CallContext) (m : Model) (v : Value) (s : Catalogue B)
      → ctx.is_admin ≡ true
      → Generator.model (registered backend denied ctx m v s).1.generator m.name ≡ some m
  unfolding registered register_model require_admin
  registered-found ctx m v s admin =
      rw (admin, (model-register_model s.generator m m.name m.name).0, eq_refl m.name) refl

  unregistered-gone :
      (ctx : CallContext) (name : String) (v : Value) (s : Catalogue B)
      → ctx.is_admin ≡ true
      → Generator.model (unregistered backend denied ctx name v s).1.generator name ≡ none
  unfolding unregistered unregister_model require_admin
  unregistered-gone ctx name v s admin =
      rw (admin, (model-register_model s.generator some_model name name).1, eq_refl name) refl

  registered-ok :
      (ctx : CallContext) (m : Model) (v : Value) (s : Catalogue B)
      → ctx.is_admin ≡ true
      → is_ok (registered backend denied ctx m v s).0 ≡ true
  unfolding registered register_model require_admin
  registered-ok ctx m v s admin = rw admin refl

  unregistered-ok :
      (ctx : CallContext) (name : String) (v : Value) (s : Catalogue B)
      → ctx.is_admin ≡ true
      → is_ok (unregistered backend denied ctx name v s).0 ≡ true
  unfolding unregistered unregister_model require_admin
  unregistered-ok ctx name v s admin = rw admin refl

  -- What is to be shown of a change.
  abbrev pub Settled : Change → Catalogue B → Step (Catalogue B) Value → Type 0
  Settled c s = UnlessFailed (Failed backend c s) (HasDone backend c s)

  deleted-Settled :
      (name : String) (ms : List Model) (s : Catalogue B) (b : B) (deleted : Bool) (c : B)
      → backend.list_models s.storage ≡ (ok ms, b)
      → IsUnread name ms
      → backend.delete_datasource name b ≡ (ok deleted, c)
      → Settled (delete_datasource name) s (
          pure
            (if deleted then ok (named name "deleted") else err (no_datasource name))
            (record s { storage = c }))
  deleted-Settled name ms s b true c l u d = done refl (ms, b, l, u, d, refl)
  deleted-Settled name ms s b false c l u d = failed (datasource_absent l (ap (λ x. x.0) d))

  unused-Settled :
      (name : String) (listed ms : List Model) (s : Catalogue B) (b : B)
      → backend.list_models s.storage ≡ (ok listed, b)
      → orphans name listed ≡ ms
      → Settled
          (delete_datasource name)
          s
          (unused backend denied name ms (record s { storage = b }))
  unfolding unused stored
  unused-Settled name listed [] s b l e =
      let c = delete_datasource name in
      after-UnlessFailed (Failed backend c s) (HasDone backend c s) _ _
        (λ x k. datasource_not_deleted l (reported-err _ _ x k).1)
        (λ deleted k.
          deleted-Settled name listed s b deleted _ l (orphans-IsUnread name listed e)
            (reported-ok _ _ deleted k))
  unused-Settled name listed (m ∷ ms) s b l e =
      failed (in_use (ap (λ x. x.0) l) (IsUnread-orphans name listed ms m e))

  unregistered-Settled :
      (ctx : CallContext) (name : String) (datasource : Option String) (s t : Catalogue B)
      (deleted : Bool)
      → ctx.is_admin ≡ true
      → backend.delete_model name datasource s.storage ≡ (ok deleted, t.storage)
      → Settled (delete_model name datasource) s (
          if deleted
          then unregistered backend denied ctx name (named name "deleted") t
          else pure (err (no_model name)) t)
  unregistered-Settled ctx name datasource s t true admin e =
      done (unregistered-ok ctx name _ t admin) (
        e ∙ ap (λ b. (ok true, b)) (unregistered-storage ctx name _ t),
        unregistered-gone ctx name _ t admin,
      )
  unregistered-Settled ctx name datasource s t false admin e = failed (absent (ap (λ x. x.0) e))

  create_model-Settled :
      (ctx : CallContext) (input : CreateModelInput) (s : Catalogue B)
      → ctx.is_admin ≡ true
      → Settled (create_model input) s (change_as_admin backend denied ctx (create_model input) s)
  unfolding change_as_admin stored
  create_model-Settled ctx input s admin =
      let F = Failed backend (create_model input) s in
      let P = HasDone backend (create_model input) s in
      let no_items = is_empty input.measures && is_empty input.dimensions in
      elim (Bool-cases no_items) [
        | inl e ↦
            let (a, b) = is_empty-both input.measures input.dimensions e in
            if_true (UnlessFailed F P) no_items _ _ e (failed (no_fields a b))
        | inr e ↦ if_false (UnlessFailed F P) no_items _ _ e (
            after-UnlessFailed F P (pure (new_model input) s) _ (λ x k. bad_input k)
              (λ m k.
                after-UnlessFailed F P _ _ (λ x l. not_created k (reported-err _ _ x l).1)
                  (λ saved l. done (registered-ok ctx saved _ _ admin) (
                    m,
                    saved,
                    k,
                    reported-ok _ _ saved l
                        ∙ ap (λ b. (ok saved, b)) (registered-storage ctx saved _ _),
                    registered-found ctx saved _ _ admin,
                  ))))
      ]

  update_model-Settled :
      (ctx : CallContext) (input : UpdateModelInput) (s : Catalogue B)
      → ctx.is_admin ≡ true
      → Settled (update_model input) s (change_as_admin backend denied ctx (update_model input) s)
  unfolding change_as_admin stored
  update_model-Settled ctx input s admin =
      let F = Failed backend (update_model input) s in
      let P = HasDone backend (update_model input) s in
      let read = backend.get_model input.name s.storage in
      after-UnlessFailed F P _ _ (λ x k. not_read (reported-err _ _ x k).1)
        (λ found e.
          let e₁ : read ≡ (ok found, read.1) = reported-ok _ _ found e in
          after-UnlessFailed F P _ _
            (λ x k. not_found (ap (λ r. r.0) e₁ ∙ ap ok (ok_or-err found _ x k)))
            (λ old k.
              let e₂ : read ≡ (ok (some old), read.1) =
                e₁ ∙ ap (λ o. (ok o, read.1)) (ok_or-ok found _ old k) in
              after-UnlessFailed F P _ _ (λ x c. bad_changes (ap (λ r. r.0) e₂) c)
                (λ m c.
                  after-UnlessFailed F P _ _ (λ x l. not_updated e₂ c (reported-err _ _ x l).1)
                    (λ saved l. done (registered-ok ctx saved _ _ admin) (
                      old,
                      m,
                      saved,
                      read.1,
                      e₂,
                      c,
                      reported-ok _ _ saved l
                          ∙ ap (λ b. (ok saved, b)) (registered-storage ctx saved _ _),
                      registered-found ctx saved _ _ admin,
                    )))))

  update_datasource-Settled :
      (ctx : CallContext) (input : UpdateDatasourceInput) (s : Catalogue B)
      → Settled
          (update_datasource input)
          s
          (change_as_admin backend denied ctx (update_datasource input) s)
  unfolding change_as_admin stored
  update_datasource-Settled ctx input s =
      let F = Failed backend (update_datasource input) s in
      let P = HasDone backend (update_datasource input) s in
      let read = backend.get_datasource input.name s.storage in
      after-UnlessFailed F P _ _ (λ x k. datasource_not_read (reported-err _ _ x k).1)
        (λ found e.
          let e₁ : read ≡ (ok found, read.1) = reported-ok _ _ found e in
          after-UnlessFailed F P _ _
            (λ x k. datasource_not_found (ap (λ r. r.0) e₁ ∙ ap ok (ok_or-err found _ x k)))
            (λ old k.
              let e₂ : read ≡ (ok (some old), read.1) =
                e₁ ∙ ap (λ o. (ok o, read.1)) (ok_or-ok found _ old k) in
              after-UnlessFailed F P _ _ (λ x l. datasource_not_updated e₂ (reported-err _ _ x l).1)
                (λ saved l. done refl (old, saved, read.1, e₂, reported-ok _ _ saved l, refl))))

  change_as_admin-Settled :
      (ctx : CallContext) (c : Change) (s : Catalogue B)
      → ctx.is_admin ≡ true
      → Settled c s (change_as_admin backend denied ctx c s)
  unfolding change_as_admin stored
  change_as_admin-Settled ctx (create_model input) s admin = create_model-Settled ctx input s admin
  change_as_admin-Settled ctx (update_model input) s admin = update_model-Settled ctx input s admin
  change_as_admin-Settled ctx (delete_model name datasource) s admin =
      let c = delete_model name datasource in
      after-UnlessFailed (Failed backend c s) (HasDone backend c s) _ _
        (λ x k. not_deleted (reported-err _ _ x k).1)
        (λ deleted e.
          unregistered-Settled ctx name datasource s _ deleted admin (reported-ok _ _ deleted e))
  change_as_admin-Settled ctx (create_datasource input) s admin =
      let c = create_datasource input in
      after-UnlessFailed (Failed backend c s) (HasDone backend c s) _ _
        (λ x k. datasource_not_created (reported-err _ _ x k).1)
        (λ saved k. done refl (saved, reported-ok _ _ saved k, refl))
  change_as_admin-Settled ctx (update_datasource input) s admin =
      update_datasource-Settled ctx input s
  change_as_admin-Settled ctx (delete_datasource name) s admin =
      let c = delete_datasource name in
      after-UnlessFailed (Failed backend c s) (HasDone backend c s) _ _
        (λ x k. models_not_listed (reported-err _ _ x k).1)
        (λ ms e. unused-Settled name ms (orphans name ms) s _ (reported-ok _ _ ms e) refl)

-- A caller who is no administrator changes nothing and is refused. A change of an administrator fails, and
-- then because the input is refused, a call of the storage has failed, what is to be changed is not there or
-- the datasource is in use; or it succeeds and has done its work. The model made of the input was created in the storage, or the model found there was
-- updated to what the input makes of it, and the engine finds the model as it was stored. A model was deleted
-- from the storage, and the engine finds none of its name. The datasource of the input was created, or the
-- datasource found was updated with what the input gives, what it leaves out staying as it was, or a
-- datasource was deleted from which no listed model read, each without changing the engine. The storage is
-- then what that call of it left.
pub change-HasDone :
    {B : Type 0} (backend : Backend B) (denied : String) (ctx : CallContext) (c : Change)
    (s : Catalogue B)
    → ((ctx.is_admin ≡ false) × (change backend denied ctx c s ≡ (err (admin_error denied), s)))
      ⊎ ((ctx.is_admin ≡ true) × Settled backend denied c s (change backend denied ctx c s))
unfolding change
change-HasDone backend denied ctx c s = elim (Bool-cases ctx.is_admin) [
  | inl e ↦ inr (
    e,
    if_true (Settled backend denied c s) ctx.is_admin _ _ e
        (change_as_admin-Settled backend denied ctx c s e),
  )
  | inr e ↦ inl (e, if_false (λ r. r ≡ pure (err (admin_error denied)) s) ctx.is_admin _ _ e refl)
]
