-- ===== src/Repository/Outcome.antt =====
-- What an operation on privileges comes to: it is refused, or it is done and written.
use forum.Base.{
  List, [], ◌∷◌, ◌++◌, Option, none, some, Bool, true, false, ◌≡◌, ◌≢◌, arith, ◌⊎◌, inl, inr, refl,
  sym, ap, ◌∙◌,
}
use forum.Authorization.DefaultThrottling.{DefaultThrottling}
use forum.Authorization.DefaultAuthorization.{
  AuthorizationStatus, Action, ok, not_allowed, throttled,
}
use forum.Persistence.Events.{Event}
use forum.Repository.Collection.{EntityCollection}
use forum.Repository.Common.{
  StatusCode, success, Written, to_written, Request, Repository, Inner, write_if, write_authorized,
  when_valid, when_found,
}
use forum.Repository.Import.{import_privileges, check_status_code, replay}

-- Nothing but the throttling has changed.
pub record IsRefused (r : Repository) (after : StatusCode × Repository) : Type 0 where
  pub status_refused : after.0 ≢ success
  pub collection_kept : after.1.collection ≡ r.collection
  pub written_kept : after.1.written ≡ r.written

-- The event was written, and the collection changed as the event says.
pub record IsDone (q : Request) (event : Event) (r : Repository) (after : StatusCode × Repository)
    : Type 0 where
  pub status_done : after.0 ≡ success
  pub collection_imported :
      import_privileges q.context.current_time event r.collection ≡ (success, after.1.collection)
  pub event_written : after.1.written ≡ r.written ++ (to_written q r.collection event ∷ [])

abbrev pub Outcome : Request → Event → Repository → StatusCode × Repository → Type 0
Outcome q event r after = IsRefused r after ⊎ IsDone q event r after

module _ (q : Request) where
  write_if-Outcome :
      (allowed : AuthorizationStatus × DefaultThrottling) (event : Event) (inner : Inner)
      (r : Repository)
      → inner r.collection ≡ import_privileges q.context.current_time event r.collection
      → (inner r.collection).0 ≡ success
      → Outcome q event r (write_if q event inner allowed r)
  unfolding write_if
  write_if-Outcome (ok, throttling) event inner r h k = inr (record {
    status_done = k;
    collection_imported = sym h ∙ ap (λ status. (status, (inner r.collection).1)) k;
    event_written = refl;
  })
  write_if-Outcome (not_allowed, throttling) event inner r h k =
      inl
        (record { status_refused = λ e. ground arith; collection_kept = refl; written_kept = refl })
  write_if-Outcome (throttled, throttling) event inner r h k =
      inl
        (record { status_refused = λ e. ground arith; collection_kept = refl; written_kept = refl })

  pub write_authorized-Outcome :
      (rule : Action) (event : Event) (inner : Inner) (r : Repository)
      → inner r.collection ≡ import_privileges q.context.current_time event r.collection
      → (inner r.collection).0 ≡ success
      → Outcome q event r (write_authorized q rule event inner r)
  unfolding write_authorized
  write_authorized-Outcome rule event inner r h k =
      write_if-Outcome (rule r.throttling) event inner r h k

  pub when_valid-Outcome :
      (event : Event) (valid : Bool) (next : Repository → StatusCode × Repository) (r : Repository)
      → (valid ≡ true → Outcome q event r (next r))
      → Outcome q event r (when_valid valid next r)
  unfolding when_valid
  when_valid-Outcome event true next r h = h refl
  when_valid-Outcome event false next r h =
      inl
        (record { status_refused = λ e. ground arith; collection_kept = refl; written_kept = refl })

  pub when_found-Outcome :
      {A : Type 0} (event : Event) (found : Option A)
      (next : A → Repository → StatusCode × Repository) (r : Repository)
      → ((x : A) → found ≡ some x → Outcome q event r (next x r))
      → Outcome q event r (when_found found next r)
  unfolding when_found
  when_found-Outcome event (some x) next r h = h x refl
  when_found-Outcome event none next r h =
      inl
        (record { status_refused = λ e. ground arith; collection_kept = refl; written_kept = refl })

chained :
    (f g : EntityCollection → Option EntityCollection) (c' : EntityCollection)
    (result found : Option EntityCollection)
    → ((d : EntityCollection) → f d ≡ some c' → g d ≡ result)
    → elim found [ none ↦ none | some d ↦ f d ] ≡ some c'
    → elim found [ none ↦ none | some d ↦ g d ] ≡ result
chained f g c' result none h k = ground arith
chained f g c' result (some d) h k = h d k

replay-append :
    (written : List Written) (w : Written) (c c' : EntityCollection)
    → replay written c ≡ some c'
    → replay (written ++ (w ∷ [])) c ≡ check_status_code (import_privileges w.at w.event c')
replay-append [] w c c' h = appended c c' h
  where
    same : (found : Option EntityCollection) → elim found [ none ↦ none | some d ↦ some d ] ≡ found
    same none = refl
    same (some d) = refl

    appended :
        (c c' : EntityCollection)
        → some c ≡ some c'
        → elim (check_status_code (import_privileges w.at w.event c)) [
          | none ↦ none
          | some d ↦ some d
        ]
          ≡ check_status_code (import_privileges w.at w.event c')
    appended c c' h =
        same (check_status_code (import_privileges w.at w.event c))
        ∙ ap (λ d. check_status_code (import_privileges w.at w.event d)) (ground arith)
replay-append (v ∷ written) w c c' h =
    chained (replay written) (replay (written ++ (w ∷ []))) c'
      (check_status_code (import_privileges w.at w.event c'))
      (check_status_code (import_privileges v.at v.event c)) (λ d. replay-append written w d c') h

-- What was written gives the collection again after an operation, if it did before.
pub replay-Outcome :
    (q : Request) (event : Event) (r : Repository) (after : StatusCode × Repository)
    (start : EntityCollection)
    → Outcome q event r after
    → replay r.written start ≡ some r.collection
    → replay after.1.written start ≡ some after.1.collection
replay-Outcome q event r after start (inl refused) h =
    ap (λ w. replay w start) refused.written_kept ∙ h ∙ ap some (sym refused.collection_kept)
replay-Outcome q event r after start (inr done) h =
    ap (λ w. replay w start) done.event_written
    ∙ replay-append r.written (to_written q r.collection event) start r.collection h
    ∙ ap check_status_code done.collection_imported
